-- ===== src/Router/Stats.antt =====
-- The counters of the router (internal/router/stats.go). Costs are left out.
use kyvik.Base.{
  ℕ, suc, ◌+◌, Bool, true, false, List, [], ◌∷◌, ◌≡◌, ◌↔◌, refl, ◌==◌, Comparable, nat_eq, list_eq,
  Bytes, if◌then◌else◌, arith,
}

-- What routed a message.
pub data Method : Type 0 where
  prefix : Method
  vision : Method
  classifier : Method
  default : Method

abbrev pub method_beq : Method → Method → Bool
method_beq prefix prefix = true
method_beq vision vision = true
method_beq classifier classifier = true
method_beq default default = true
method_beq _ _ = false

pub method_beq_iff : (a b : Method) → (method_beq a b ≡ true) ↔ (a ≡ b)
method_beq_iff prefix b = ground arith
method_beq_iff vision b = ground arith
method_beq_iff classifier b = ground arith
method_beq_iff default b = ground arith

instance abbrev pub method_eq : Comparable Method
method_eq = record { same = method_beq; same_iff = method_beq_iff }

pub record RoutingStats : Type 0 where
  pub total_routed : ℕ
  pub by_method : List (Method × ℕ)
  pub by_slot : List (Bytes × ℕ)

abbrev pub new_routing_stats : RoutingStats
new_routing_stats = record { total_routed = 0; by_method = []; by_slot = [] }

module _ {K : Type 0} ⦃e : Comparable K⦄ where
  -- `counters[key]++`; a missing counter is 0.
  unfoldable pub increment : K → List (K × ℕ) → List (K × ℕ)
  increment key [] = (key, 1) ∷ []
  increment key ((other, n) ∷ rest) =
      let more = increment key rest in
      if other == key then (other, suc n) ∷ rest else (other, n) ∷ more

  unfoldable pub count_all : List (K × ℕ) → ℕ
  count_all [] = 0
  count_all ((key, n) ∷ rest) = n + count_all rest

  pub count-increment :
      (key : K) (counters : List (K × ℕ))
      → count_all (increment key counters) ≡ suc (count_all counters)
  unfolding increment count_all
  count-increment key [] = refl
  count-increment key ((other, n) ∷ rest) = ground (arith, count-increment key rest)

-- `RoutingStats.Record`.
unfoldable pub record_route : Method → Bytes → RoutingStats → RoutingStats
unfolding increment
record_route method slot_name s = record {
  total_routed = suc s.total_routed;
  by_method = increment method s.by_method;
  by_slot = increment slot_name s.by_slot;
}

-- The counters of the methods and those of the slots add up to the total.
pub record IsBalanced (s : RoutingStats) : Type 0 where
  pub methods : count_all s.by_method ≡ s.total_routed
  pub slots : count_all s.by_slot ≡ s.total_routed

pub new_routing_stats-IsBalanced : IsBalanced new_routing_stats
unfolding count_all
new_routing_stats-IsBalanced = record { methods = refl; slots = refl }

pub record_route-IsBalanced :
    (method : Method) (slot_name : Bytes) {s : RoutingStats}
    → IsBalanced s
    → IsBalanced (record_route method slot_name s)
unfolding record_route
record_route-IsBalanced method slot_name {s} b =
    ground (arith, count-increment method s.by_method, count-increment slot_name s.by_slot)
