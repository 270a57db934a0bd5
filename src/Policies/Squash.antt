-- ===== src/Policies/Squash.antt =====
-- Squashing policies admits the same traffic.
use openstack_controller.Common.{
  ◌==◌, eq_iff, if◌then◌else◌, all, any, All, contains, Dict, values, String, ◌≡◌, refl, sym, ap,
  ◌∙◌, Bool, true, false, ◌&&◌, ◌||◌, List, [], ◌∷◌, ◌++◌, arith, nat_eq, string_eq,
}
use openstack_controller.Policies.View.{
  Port, Policy, port_eq, squash_policy, squash_into, squash_policies,
}

-- Traffic from the peer to the port is admitted.
abbrev pub admits : String → Port → Policy → Bool
admits peer port policy = contains policy.peers peer && contains policy.open_ports port

abbrev pub admit : String → Port → List Policy → Bool
admit peer port = any (admits peer port)

contains-append :
    (xs ys : List String) (a : String) → contains (xs ++ ys) a ≡ (contains xs a || contains ys a)
contains-append [] ys a = refl
contains-append (x ∷ xs) ys a = ground (arith, contains-append xs ys a)

any-append : (p : Policy → Bool) (xs ys : List Policy) → any p (xs ++ ys) ≡ (any p xs || any p ys)
any-append p [] ys = refl
any-append p (x ∷ xs) ys = ground (arith, any-append p xs ys)

module _ (spec_hash : List Port → String) (Known : List Port → Type 0) where
  -- The hash tells known lists of ports apart.
  abbrev pub Separates : Type 0
  Separates = (p q : List Port) → Known p → Known q → spec_hash p ≡ spec_hash q → p ≡ q

  -- An entry stands under the hash of its ports, which are known.
  abbrev IsFiled : Dict Policy → Type 0
  IsFiled squashed = All (λ e. (e.0 ≡ spec_hash e.1.open_ports) × Known e.1.open_ports) squashed

  -- An entry that is found has the policy's ports.
  same_ports :
      (policy before : Policy) (h : String)
      → Separates
      → Known policy.open_ports
      → (h ≡ spec_hash before.open_ports) × Known before.open_ports
      → (h == spec_hash policy.open_ports) ≡ true
      → before.open_ports ≡ policy.open_ports
  same_ports policy before h separates known (filed, known') e =
      separates before.open_ports policy.open_ports known' known
        (sym filed ∙ (eq_iff h (spec_hash policy.open_ports)).0 e)

  squash_policy-IsFiled :
      (policy : Policy) (squashed : Dict Policy)
      → Separates
      → Known policy.open_ports
      → IsFiled squashed
      → IsFiled (squash_policy spec_hash policy squashed)
  unfolding squash_policy
  squash_policy-IsFiled policy [] separates known filed = ((refl, known), tt)
  squash_policy-IsFiled policy ((h, before) ∷ squashed) separates known (first, filed) =
      placed (h == spec_hash policy.open_ports) refl
        (squash_policy-IsFiled policy squashed separates known filed)
    where
      placed :
          (b : Bool)
          → (h == spec_hash policy.open_ports) ≡ b
          → IsFiled (squash_policy spec_hash policy squashed)
          → IsFiled (
              if b
              then (h, record policy { peers = before.peers ++ policy.peers }) ∷ squashed
              else (h, before) ∷ squash_policy spec_hash policy squashed)
      placed true e rest = (((eq_iff h (spec_hash policy.open_ports)).0 e, known), filed)
      placed false e rest = (first, rest)

  squash_policy-admit :
      (policy : Policy) (squashed : Dict Policy) (peer : String) (port : Port)
      → Separates
      → Known policy.open_ports
      → IsFiled squashed
      → admit peer port (values (squash_policy spec_hash policy squashed))
        ≡ (admits peer port policy || admit peer port (values squashed))
  unfolding squash_policy
  squash_policy-admit policy [] peer port separates known filed = refl
  squash_policy-admit policy ((h, before) ∷ squashed) peer port separates known (first, filed) =
      placed (h == spec_hash policy.open_ports) refl
        (squash_policy-admit policy squashed peer port separates known filed)
    where
      merged :
          (peers ports before_ports rest : Bool) (more : Bool)
          → before_ports ≡ ports
          → (((more || peers) && ports) || rest)
            ≡ ((peers && ports) || ((more && before_ports) || rest))
      merged peers ports before_ports rest more e = ground (arith, e)

      later :
          (here before_here rest all : Bool)
          → all ≡ (here || rest)
          → (before_here || all) ≡ (here || (before_here || rest))
      later here before_here rest all e = ground (arith, e)

      placed :
          (b : Bool)
          → (h == spec_hash policy.open_ports) ≡ b
          → admit peer port (values (squash_policy spec_hash policy squashed))
            ≡ (admits peer port policy || admit peer port (values squashed))
          → admit peer port (
              values (
                if b
                then (h, record policy { peers = before.peers ++ policy.peers }) ∷ squashed
                else (h, before) ∷ squash_policy spec_hash policy squashed))
            ≡ (admits peer port policy
                || (admits peer port before || admit peer port (values squashed)))
      placed true e rest =
          ap (λ c. (c && contains policy.open_ports port) || admit peer port (values squashed))
            (contains-append before.peers policy.peers peer)
          ∙ merged (contains policy.peers peer) (contains policy.open_ports port)
              (contains before.open_ports port) (admit peer port (values squashed))
              (contains before.peers peer)
              (ap (λ p. contains p port) (same_ports policy before h separates known first e))
      placed false e rest =
          later (admits peer port policy) (admits peer port before)
            (admit peer port (values squashed)) _ rest

  abbrev pub AllKnown : List Policy → Type 0
  AllKnown = All (λ p. Known p.open_ports)

  squash_into-admit :
      (policies : List Policy) (squashed : Dict Policy) (peer : String) (port : Port)
      → Separates
      → AllKnown policies
      → IsFiled squashed
      → admit peer port (values (squash_into spec_hash policies squashed))
        ≡ (admit peer port policies || admit peer port (values squashed))
  unfolding squash_into
  squash_into-admit [] squashed peer port separates known filed = refl
  squash_into-admit (p ∷ policies) squashed peer port separates (here, known) filed =
      squash_into-admit policies (squash_policy spec_hash p squashed) peer port separates known
        (squash_policy-IsFiled p squashed separates here filed)
      ∙ turn (admit peer port policies) (admits peer port p) (admit peer port (values squashed)) _
          (squash_policy-admit p squashed peer port separates here filed)
    where
      turn :
          (more here rest all : Bool)
          → all ≡ (here || rest)
          → (more || all) ≡ ((here || more) || rest)
      turn more here rest all e = ground (arith, e)

  -- Squashed policies admit traffic from a peer to a port exactly where one of the policies does. The
  -- hash tells apart the lists of ports that the policies have.
  pub squash_policies-admit :
      (policies : List Policy) (peer : String) (port : Port)
      → Separates
      → AllKnown policies
      → admit peer port (squash_policies spec_hash policies) ≡ admit peer port policies
  unfolding squash_policies
  squash_policies-admit policies peer port separates known =
      squash_into-admit policies [] peer port separates known tt ∙ last (admit peer port policies)
    where
      last : (b : Bool) → (b || false) ≡ b
      last true = refl
      last false = refl
