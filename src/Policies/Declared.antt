-- ===== src/Policies/Declared.antt =====
-- The network policies admit the declared traffic, and no other.
use openstack_controller.Common.{
  ◌==◌, eq_iff, if◌then◌else◌, Bool-cases, any, All, Dict, lookup, values, lookup-insert, ◌>>=◌,
  some_of_bind, some_inj, String, ◌≡◌, refl, sym, ap, ◌∙◌, inl, inr, Bool, true, false, ◌&&◌, ◌||◌,
  none, some, List, [], ◌∷◌, ◌++◌, map, arith, nat_eq, string_eq,
}
use openstack_controller.Policies.View.{
  Port, Policy, Child, Connection, port_eq, policy_of, add_connections, append_policy,
  squash_policies, get_network_policies, add_children, policies_of,
}
use openstack_controller.Policies.Squash.{admits, admit, AllKnown, Separates, squash_policies-admit}

-- The connection lets the child send to the port of the object.
abbrev pub is_declared_by : Dict Child → String → String → Port → Child → Connection → Bool
is_declared_by childs ident peer port child connection =
    connection.dst_ident == ident && (elim (policy_of childs child connection) [
      | none ↦ false
      | some policy ↦ admits peer port policy
    ])

-- A connection of some child lets the peer, by its labels, send to the port of the object.
abbrev pub is_declared : Dict Child → String → String → Port → List Child → Bool
is_declared childs ident peer port =
    any (λ child. any (is_declared_by childs ident peer port child) child.egress)

any-append :
    (p : Policy → Bool) (xs : List Policy) (y : Policy) → any p (xs ++ y ∷ []) ≡ (any p xs || p y)
any-append p [] y = ground arith
any-append p (x ∷ xs) y = ground (arith, any-append p xs y)

append_policy-admit :
    (ident other peer : String) (port : Port) (policy : Policy) (policies : Dict (List Policy))
    → admit peer port (policies_of other (append_policy ident policy policies)) ≡ (
        admit peer port (policies_of other policies) || (ident == other && admits peer port policy))
unfolding append_policy
append_policy-admit ident other peer port policy policies =
    ap (λ o. admit peer port (elim o [ none ↦ [] | some found ↦ found ]))
      (lookup-insert ident other (policies_of ident policies ++ policy ∷ []) policies)
    ∙ elim (Bool-cases (ident == other)) [
      | inl e ↦
          let same = (eq_iff ident other).0 e in
          ap
            (λ b.
              admit peer port
                (elim (if b
                  then some (policies_of ident policies ++ policy ∷ [])
                  else lookup other policies) [ none ↦ [] | some found ↦ found ]))
            e
          ∙ any-append (admits peer port) (policies_of ident policies) policy
          ∙ ap (λ i. admit peer port (policies_of i policies) || admits peer port policy) same
          ∙ ap (λ b. admit peer port (policies_of other policies) || (b && admits peer port policy))
              (sym e)
      | inr e ↦
          ap
            (λ b.
              admit peer port
                (elim (if b
                  then some (policies_of ident policies ++ policy ∷ [])
                  else lookup other policies) [ none ↦ [] | some found ↦ found ]))
            e
          ∙ sym (or_false (admit peer port (policies_of other policies)))
          ∙ ap (λ b. admit peer port (policies_of other policies) || (b && admits peer port policy))
              (sym e)
    ]
  where
    or_false : (b : Bool) → (b || false) ≡ b
    or_false true = refl
    or_false false = refl

module _ (childs : Dict Child) (ident peer : String) (port : Port) where
  add_connections-admit :
      (child : Child) (connections : List Connection) (before after : Dict (List Policy))
      → add_connections childs child connections before ≡ some after
      → admit peer port (policies_of ident after) ≡ (
          admit peer port (policies_of ident before)
          || any (is_declared_by childs ident peer port child) connections)
  unfolding add_connections
  add_connections-admit child [] before after h =
      or_false _ _ (ap (λ d. admit peer port (policies_of ident d)) (some_inj h))
    where
      or_false : (b c : Bool) → b ≡ c → c ≡ (b || false)
      or_false b c e = ground (arith, e)
  add_connections-admit child (connection ∷ connections) before after h =
      let (policy, made, rest) = some_of_bind (policy_of childs child connection) _ after h in
      add_connections-admit child connections (append_policy connection.dst_ident policy before)
        after rest
      ∙ joined (admit peer port (policies_of ident before)) (connection.dst_ident == ident)
          (admits peer port policy) _ _ _
          (append_policy-admit connection.dst_ident ident peer port policy before)
          (ap (λ o. elim o [ none ↦ false | some p ↦ admits peer port p ]) made)
    where
      joined :
          (before here admitted declared more after : Bool)
          → after ≡ (before || (here && admitted))
          → declared ≡ admitted
          → (after || more) ≡ (before || ((here && declared) || more))
      joined before here admitted declared more after e f = ground (arith, e, f)

  add_children-admit :
      (children : List Child) (before after : Dict (List Policy))
      → add_children childs children before ≡ some after
      → admit peer port (policies_of ident after) ≡ (
          admit peer port (policies_of ident before) || is_declared childs ident peer port children)
  unfolding add_children
  add_children-admit [] before after h =
      or_false _ _ (ap (λ d. admit peer port (policies_of ident d)) (some_inj h))
    where
      or_false : (b c : Bool) → b ≡ c → c ≡ (b || false)
      or_false b c e = ground (arith, e)
  add_children-admit (child ∷ children) before after h =
      let (more, made, rest) =
        some_of_bind (add_connections childs child child.egress before) _ after h in
      add_children-admit children more after rest
      ∙ joined (admit peer port (policies_of ident before)) _ _ _
          (add_connections-admit child child.egress before more made)
    where
      joined :
          (before here more after : Bool)
          → after ≡ (before || here)
          → (after || more) ≡ (before || (here || more))
      joined before here more after e = ground (arith, e)

module _ (spec_hash : List Port → String) (Known : List Port → Type 0) where
  -- Squashing every entry of a dictionary.
  squash_all : Dict (List Policy) → Dict (List Policy)
  squash_all policies = map (λ entry. (entry.0, squash_policies spec_hash entry.1)) policies

  abbrev pub AllPoliciesKnown : Dict (List Policy) → Type 0
  AllPoliciesKnown = All (λ entry. AllKnown spec_hash Known entry.1)

  squash_all-admit :
      (policies : Dict (List Policy)) (ident peer : String) (port : Port)
      → Separates spec_hash Known
      → AllPoliciesKnown policies
      → admit peer port (policies_of ident (squash_all policies))
        ≡ admit peer port (policies_of ident policies)
  unfolding squash_all
  squash_all-admit [] ident peer port separates known = refl
  squash_all-admit ((i, found) ∷ policies) ident peer port separates (here, known) =
      split (i == ident) (squash_all-admit policies ident peer port separates known)
    where
      split :
          (b : Bool)
          → admit peer port (policies_of ident (squash_all policies))
            ≡ admit peer port (policies_of ident policies)
          → admit peer port
              (elim (if b
                then some (squash_policies spec_hash found)
                else lookup ident (squash_all policies)) [ none ↦ [] | some f ↦ f ])
            ≡ admit peer port
                (elim (if b then some found else lookup ident policies) [ none ↦ [] | some f ↦ f ])
      split true rest = squash_policies-admit spec_hash Known found peer port separates here
      split false rest = rest

  -- The network policies of an object admit traffic from a peer to a port exactly where a connection of
  -- some child with the peer's labels declares it, if the connections lead to children and ports that
  -- exist. The hash tells apart the lists of ports that the policies have.
  pub get_network_policies-is_declared :
      (childs : Dict Child) (before result : Dict (List Policy)) (ident peer : String) (port : Port)
      → add_children childs (values childs) [] ≡ some before
      → get_network_policies spec_hash childs ≡ some result
      → Separates spec_hash Known
      → AllPoliciesKnown before
      → admit peer port (policies_of ident result)
        ≡ is_declared childs ident peer port (values childs)
  unfolding get_network_policies squash_all
  get_network_policies-is_declared childs before result ident peer port built made separates known =
      let squashed = ap (λ o. o >>= λ policies. some (squash_all policies)) built in
      ap (λ d. admit peer port (policies_of ident d)) (some_inj (sym made ∙ squashed))
      ∙ squash_all-admit before ident peer port separates known
      ∙ add_children-admit childs ident peer port (values childs) [] before built
