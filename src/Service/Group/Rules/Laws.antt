-- ===== src/Service/Group/Rules/Laws.antt =====
-- Comparing the rules of a cluster with those of the cloud, after they have been set.
use cluster_api_provider_sca.Prelude.{
  ◌≡◌, ◌≢◌, ◌↔◌, refl, ap, ℕ, suc, ◌+◌, ◌%◌, ◌^◌, true, false, Option, none, some, List, [], ◌∷◌,
  map, arith, length, nat_eq, option_eq, eq_refl, nat_eq_iff, All, eq_iff,
}
use cluster_api_provider_sca.Result.{Result, ok, err, panicked, ◌>>=◌}
use cluster_api_provider_sca.Sdk.{Sdk}
use cluster_api_provider_sca.Cloud.Instance.{
  Policy, accept, drop, other_policy, Protocol, any, tcp, udp, icmp, other_protocol, Direction,
  InstanceRule, RequestRule,
}
use cluster_api_provider_sca.Api.Group.{GroupRule}
use cluster_api_provider_sca.Service.Group.Rules.{
  policy_eq, protocol_eq, ip_range_of, compare_rule, compare_rounds, compare_rules,
  to_instance_request_rule, request_rules,
}

-- The rule that the cloud holds after a rule was set.
abbrev pub held : RequestRule → InstanceRule
held r = record {
  direction = r.direction;
  protocol = r.protocol;
  action = r.action;
  ip_range = r.ip_range;
  dest_port_from = r.dest_port_from;
  dest_port_to = r.dest_port_to;
}

-- A range is canonical if it is the text of its own network.
abbrev pub IsCanonical : Sdk → GroupRule → Type 0
IsCanonical sdk rule = sdk.parse_cidr (ip_range_of rule.ip_range) ≡ ok (ip_range_of rule.ip_range)

policy_eq_refl : (p : Policy) → policy_eq p p ≡ true
policy_eq_refl accept = refl
policy_eq_refl drop = refl
policy_eq_refl (other_policy a) = eq_refl a

protocol_eq_refl : (p : Protocol) → protocol_eq p p ≡ true
protocol_eq_refl any = refl
protocol_eq_refl tcp = refl
protocol_eq_refl udp = refl
protocol_eq_refl icmp = refl
protocol_eq_refl (other_protocol a) = eq_refl a

option_eq_refl : (o : Option ℕ) → option_eq nat_eq o o ≡ true
option_eq_refl none = refl
option_eq_refl (some n) = ground arith

module _ (sdk : Sdk) (i : ℕ) (rule : GroupRule) (d : Direction) where
  compare_rule-held :
      {new : RequestRule}
      → to_instance_request_rule sdk i rule d ≡ ok new
      → IsCanonical sdk rule
      → compare_rule rule (held new) ≡ ok true
  unfolding compare_rule to_instance_request_rule
  compare_rule-held {new} made canonical = ground (
    arith,
    policy_eq_refl new.action,
    protocol_eq_refl new.protocol,
    option_eq_refl new.dest_port_from,
    option_eq_refl new.dest_port_to,
    eq_refl new.ip_range,
  )

  compare_rule-differs :
      {new : RequestRule}
      → to_instance_request_rule sdk i rule d ≡ ok new
      → ip_range_of rule.ip_range ≢ new.ip_range
      → compare_rule rule (held new) ≡ ok false
  unfolding compare_rule to_instance_request_rule
  compare_rule-differs {new} made differs = ground (
    arith,
    policy_eq_refl new.action,
    protocol_eq_refl new.protocol,
    eq_iff (ip_range_of rule.ip_range) new.ip_range,
  )

  compare_rule-IsCanonical :
      {new : RequestRule}
      → to_instance_request_rule sdk i rule d ≡ ok new
      → compare_rule rule (held new) ≡ ok true
      → IsCanonical sdk rule
  unfolding compare_rule to_instance_request_rule
  compare_rule-IsCanonical {new} made same =
      ground (arith, eq_iff (ip_range_of rule.ip_range) new.ip_range)

-- What the loop over the rules gives: the first rule, and the loop over the rest.
pub record Made (sdk : Sdk) (i : ℕ) (rule : GroupRule) (rules : List GroupRule) (d : Direction)
    (news : List RequestRule) : Type 0 where
  pub new : RequestRule
  pub rest : List RequestRule
  pub made_new : to_instance_request_rule sdk ((i + 1) % 2 ^ 32) rule d ≡ ok new
  pub made_rest : request_rules sdk (i + 1) rules d ≡ ok rest
  pub whole : news ≡ new ∷ rest

module _ (sdk : Sdk) (i : ℕ) (rule : GroupRule) (rules : List GroupRule) (d : Direction) where
  request_rules-cons :
      {news : List RequestRule} (r : Result RequestRule) (q : Result (List RequestRule))
      → to_instance_request_rule sdk ((i + 1) % 2 ^ 32) rule d ≡ r
      → request_rules sdk (i + 1) rules d ≡ q
      → (r >>= λ new. q >>= λ rest. ok (new ∷ rest)) ≡ ok news
      → Made sdk i rule rules d news
  request_rules-cons (ok new) (ok rest) e f made = record {
    new = new;
    rest = rest;
    made_new = e;
    made_rest = f;
    whole = cc;
  }
  request_rules-cons (err _) _ e f made = absurd (cc)
  request_rules-cons panicked _ e f made = absurd (cc)
  request_rules-cons (ok new) (err _) e f made = absurd (cc)
  request_rules-cons (ok new) panicked e f made = absurd (cc)

  pub Made-of :
      {news : List RequestRule}
      → request_rules sdk i (rule ∷ rules) d ≡ ok news
      → Made sdk i rule rules d news
  unfolding request_rules
  Made-of made = request_rules-cons _ _ refl refl made

compare_rounds-cons :
    (a : GroupRule) (b : InstanceRule) (as' : List GroupRule) (bs : List InstanceRule)
    → (compare_rounds (a ∷ as') (b ∷ bs) ≡ ok true)
      ↔ ((compare_rule a b ≡ ok true) × (compare_rounds as' bs ≡ ok true))
unfolding compare_rounds
compare_rounds-cons a b as' bs = ground arith

module _ (sdk : Sdk) where
  -- The rules that were made from others compare equal to them, if all ranges are canonical, and
  -- only then.
  compare_rounds-held :
      (i : ℕ) (rules : List GroupRule) (d : Direction) {news : List RequestRule}
      → request_rules sdk i rules d ≡ ok news
      → (length rules ≡ length (map held news))
        × ((compare_rounds rules (map held news) ≡ ok true) ↔ All (IsCanonical sdk) rules)
  compare_rounds-held i [] d {news} made =
      let e : news ≡ [] = (unfold request_rules in cc) in
      rw e (refl, unfold compare_rounds in (λ _. tt, λ _. refl))
  compare_rounds-held i (rule ∷ rules) d {news} made =
      let m = Made-of sdk i rule rules d made in
      let (same, later) = compare_rounds-held (i + 1) rules d m.made_rest in
      let both = compare_rounds-cons rule (held m.new) rules (map held m.rest) in
      rw m.whole (
        ap suc same,
        (
          λ h.
              (compare_rule-IsCanonical sdk _ rule d m.made_new (both.0 h).0, later.0 (both.0 h).1),
          λ c. both.1 (compare_rule-held sdk _ rule d m.made_new c.0, later.1 c.1),
        ),
      )

  -- Rules that were set and that the cloud lists as they were set compare equal to the rules of the
  -- cluster exactly when every address range is the text of its own network.
  pub compare_rules_iff :
      (i : ℕ) (rules : List GroupRule) (d : Direction) {news : List RequestRule}
      → request_rules sdk i rules d ≡ ok news
      → (compare_rules rules (map held news) ≡ ok true) ↔ All (IsCanonical sdk) rules
  unfolding compare_rules
  compare_rules_iff i rules d {news} made =
      let (same, whole) = compare_rounds-held i rules d made in
      rw ((nat_eq_iff (length rules) (length (map held news))).1 same) whole
