-- ===== src/Webhook/Network/Rules.antt =====
-- Which rules and security groups api/v1beta1/scalewaycluster_webhook.go lets pass.
use cluster_api_provider_sca.Prelude.{
  ◌≡◌, ◌↔◌, refl, ℕ, ◌+◌, ◌++◌, String, Bool, true, false, if◌then◌else◌, Option, none, some, List,
  [], ◌∷◌, ◌==◌, contains_func, arith, All,
}
use cluster_api_provider_sca.Result.{Result, ok, err, panicked}
use cluster_api_provider_sca.Sdk.{Sdk}
use cluster_api_provider_sca.Cloud.Instance.{Protocol, any, icmp}
use cluster_api_provider_sca.Prog.Runs.{Meets, NoError, Any}
use cluster_api_provider_sca.Api.Group.{
  GroupRule, GroupPolicy, SecurityGroup, to_instance, to_instance_action, to_instance_policy,
}
use cluster_api_provider_sca.Api.Ports.{to_range}
use cluster_api_provider_sca.Webhook.Field.{Segment, child, index}
use cluster_api_provider_sca.Webhook.Network.{
  Check, passes, fails, converts, check_protocol_ports, check_ip_range, validate_rule,
  validate_rules, validate_security_group_policy, validate_groups, ◌then_check◌,
}
use cluster_api_provider_sca.Webhook.Network.Laws.{then_check-passes, AreFresh}

-- A conversion that gives a value.
abbrev pub Succeeds {ℓ} : {A : Type ℓ} → Result A → Type 0
Succeeds r = Meets NoError Any r

converts_iff {ℓ} :
    {A : Type ℓ} (r : Result A) (path : List Segment) → (converts r path ≡ passes) ↔ Succeeds r
converts_iff (ok a) path = (λ _. tt, λ _. refl)
converts_iff (err e) path = (λ p. absurd (cc), λ f. absurd f)
converts_iff panicked path = (λ p. absurd (cc), λ f. absurd f)

-- A rule of which the action, the protocol, the ports and the range of addresses, if it has one,
-- are ones, and which has no ports where its protocol has none.
abbrev pub IsSound : Sdk → GroupRule → Type 0
IsSound sdk rule =
    Succeeds (to_instance_action (some rule.action))
    × Succeeds (to_instance rule.protocol)
    × Succeeds (to_range rule.ports)
    × (to_instance rule.protocol ≡ ok any → rule.ports ≡ none)
    × (to_instance rule.protocol ≡ ok icmp → rule.ports ≡ none)
    × ((range : String) → rule.ip_range ≡ some range → Succeeds (sdk.parse_cidr range))

fresh_iff :
    (known : Bool) (path : List Segment) (rest : Check)
    → ((if known then fails path "duplicate name" else rest) ≡ passes)
      ↔ ((known ≡ false) × (rest ≡ passes))
fresh_iff true path rest = (λ p. absurd (cc), λ q. let f = q.0 in absurd (cc))
fresh_iff false path rest = (λ p. (refl, p), λ q. q.1)

module _ (sdk : Sdk) where
  ip_range_iff :
      (range : Option String) (path : List Segment)
      → (check_ip_range sdk range path ≡ passes)
        ↔ ((r : String) → range ≡ some r → Succeeds (sdk.parse_cidr r))
  unfolding check_ip_range
  ip_range_iff none path = (λ _ r p. absurd (cc), λ _. refl)
  ip_range_iff (some range) path =
      let c = converts_iff (sdk.parse_cidr range) path in
      (λ p r e. let same : r ≡ range = cc in rw same (c.0 p), λ q. c.1 (q range refl))

  protocol_ports_iff :
      (r : Result Protocol) (ports : Option String) (path : List Segment)
      → Succeeds r
      → (check_protocol_ports sdk r ports path ≡ passes)
        ↔ ((r ≡ ok any → ports ≡ none) × (r ≡ ok icmp → ports ≡ none))
  unfolding check_protocol_ports
  protocol_ports_iff (ok p) ports path fine = ground arith
  protocol_ports_iff (err e) ports path fine = absurd fine
  protocol_ports_iff panicked ports path fine = absurd fine

  -- The checks of a rule pass exactly on a rule that is sound.
  pub validate_rule-IsSound :
      (rule : GroupRule) (path : List Segment)
      → (validate_rule sdk rule path ≡ passes) ↔ IsSound sdk rule
  unfolding validate_rule
  validate_rule-IsSound rule path =
      let action = converts (to_instance_action (some rule.action)) (path ++ child "action" ∷ []) in
      let protocol = converts (to_instance rule.protocol) (path ++ child "protocol" ∷ []) in
      let ports = converts (to_range rule.ports) (path ++ child "ports" ∷ []) in
      let without =
        check_protocol_ports sdk (to_instance rule.protocol) rule.ports
          (path ++ child "ports" ∷ []) in
      let range = check_ip_range sdk rule.ip_range (path ++ child "ipRange" ∷ []) in
      let a = converts_iff (to_instance_action (some rule.action)) (path ++ child "action" ∷ []) in
      let p = converts_iff (to_instance rule.protocol) (path ++ child "protocol" ∷ []) in
      let t = converts_iff (to_range rule.ports) (path ++ child "ports" ∷ []) in
      let w =
        protocol_ports_iff (to_instance rule.protocol) rule.ports (path ++ child "ports" ∷ []) in
      let r = ip_range_iff rule.ip_range (path ++ child "ipRange" ∷ []) in
      let two = then_check-passes action protocol in
      let three = then_check-passes (action then_check protocol) ports in
      let four = then_check-passes (action then_check protocol then_check ports) without in
      let five =
        then_check-passes (action then_check protocol then_check ports then_check without) range in
      (
        λ passed.
            let (before4, last) = five.0 passed in
            let (before3, fourth) = four.0 before4 in
            let (before2, third) = three.0 before3 in
            let (first, second) = two.0 before2 in
            let (any_free, icmp_free) = (w (p.0 second)).0 fourth in
            (a.0 first, p.0 second, t.0 third, any_free, icmp_free, r.0 last),
        λ sound.
            let (first, second, third, any_free, icmp_free, last) = sound in
            five.1 (
              four.1 (
                three.1 (two.1 (a.1 first, p.1 second), t.1 third),
                (w second).1 (any_free, icmp_free),
              ),
              r.1 last,
            ),
      )

  validate_rules-All :
      (i : ℕ) (rules : List GroupRule) (path : List Segment)
      → (validate_rules sdk i rules path ≡ passes) ↔ All (IsSound sdk) rules
  unfolding validate_rules
  validate_rules-All i [] path = (λ _. tt, λ _. refl)
  validate_rules-All i (rule ∷ rules) path =
      let here = validate_rule-IsSound rule _ in
      let later = validate_rules-All (i + 1) rules path in
      let both = then_check-passes _ (validate_rules sdk (i + 1) rules path) in
      (λ p. (here.0 (both.0 p).0, later.0 (both.0 p).1), λ q. both.1 (here.1 q.0, later.1 q.1))

  -- A policy of which the default action is one and every rule is sound.
  abbrev pub HasSoundRules : Option GroupPolicy → Type 0
  HasSoundRules none = Unit {0}
  HasSoundRules (some p) = Succeeds (to_instance_policy p.default) × All (IsSound sdk) p.rules

  policy_iff :
      (p : Option GroupPolicy) (path : List Segment)
      → (validate_security_group_policy sdk p path ≡ passes) ↔ HasSoundRules p
  unfolding validate_security_group_policy
  policy_iff none path = (λ _. tt, λ _. refl)
  policy_iff (some p) path =
      let default = converts_iff (to_instance_policy p.default) (path ++ child "default" ∷ []) in
      let rules = validate_rules-All 0 p.rules path in
      let both =
        then_check-passes (converts (to_instance_policy p.default) (path ++ child "default" ∷ []))
          (validate_rules sdk 0 p.rules path) in
      (
        λ q. (default.0 (both.0 q).0, rules.0 (both.0 q).1),
        λ q. both.1 (default.1 q.0, rules.1 q.1),
      )

  abbrev pub IsSoundGroup : SecurityGroup → Type 0
  IsSoundGroup g = HasSoundRules g.inbound × HasSoundRules g.outbound

  -- The checks of the security groups pass exactly where no name stands twice, the default actions
  -- are ones and every rule is sound.
  pub validate_groups-passes :
      (i : ℕ) (groups : List SecurityGroup) (names : List String)
      → (validate_groups sdk i groups names ≡ passes)
        ↔ (AreFresh groups names × All IsSoundGroup groups)
  unfolding validate_groups
  validate_groups-passes i [] names = (λ _. (tt, tt), λ _. refl)
  validate_groups-passes i (g ∷ groups) names =
      let path = child "spec" ∷ child "network" ∷ child "securityGroups" ∷ index i ∷ [] in
      let ins = policy_iff g.inbound (path ++ child "inbound" ∷ []) in
      let outs = policy_iff g.outbound (path ++ child "outbound" ∷ []) in
      let later = validate_groups-passes (i + 1) groups (g.name ∷ names) in
      let inner =
        then_check-passes
          (validate_security_group_policy sdk g.inbound (path ++ child "inbound" ∷ []))
          (validate_security_group_policy sdk g.outbound (path ++ child "outbound" ∷ [])) in
      let whole =
        then_check-passes
          (validate_security_group_policy sdk g.inbound (path ++ child "inbound" ∷ [])
            then_check validate_security_group_policy sdk g.outbound
                (path ++ child "outbound" ∷ []))
          (validate_groups sdk (i + 1) groups (g.name ∷ names)) in
      let fresh = fresh_iff (contains_func (λ n. n == g.name) names) path _ in
      (
        λ p.
            let (new, checked) = fresh.0 p in
            let (both, others) = whole.0 checked in
            let (in_ok, out_ok) = inner.0 both in
            let (news, sound) = later.0 others in
            ((new, news), ((ins.0 in_ok, outs.0 out_ok), sound)),
        λ q.
            let ((new, news), ((in_ok, out_ok), sound)) = q in
            fresh.1 (new, whole.1 (inner.1 (ins.1 in_ok, outs.1 out_ok), later.1 (news, sound))),
      )
