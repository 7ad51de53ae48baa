-- ===== src/Breaker/Manager/Each.antt =====
-- Each agent has its own breaker (internal/circuitbreaker/manager.go).
use kyvik.Base.{
  String, some, List, [], ◌∷◌, ◌≡◌, ◌≢◌, inl, inr, refl, ap, ◌∙◌, ◌==◌, ==_iff, ==_refl, ==_false,
  string_eq, lookup, lookup-insert, if◌then◌else◌, Bool-cases, Option-cases, arith,
}
use kyvik.Breaker.Config.{Config}
use kyvik.Breaker.State.{
  Float, Breaker, new_breaker, record_tool_call, active, trip, count_failure, count_destructive,
}
use kyvik.Breaker.Window.{Call, next, run}
use kyvik.Breaker.Manager.{AgentConfig, Manager, get_or_create, settle_record, record_tool_call_for}

module _ (F : Float) (hash : String → String) (parse : String → Config) where
  pub serve : Manager F → AgentConfig F × Call → Manager F
  unfolding record_tool_call_for
  serve m (config, c) =
      (record_tool_call_for F hash parse m config c.now c.success c.destructive c.now).0

  pub serve_all : Manager F → List (AgentConfig F × Call) → Manager F
  serve_all m [] = m
  serve_all m (q ∷ qs) = serve_all (serve m q) qs

  -- The breaker that an agent's next call would find.
  unfoldable pub current : Manager F → AgentConfig F → Breaker F
  current m config = (get_or_create F hash parse m config).1

  -- The calls of one agent, in order.
  unfoldable pub calls_of : String → List (AgentConfig F × Call) → List Call
  calls_of agent [] = []
  calls_of agent ((config, c) ∷ qs) =
      let rest = calls_of agent qs in if config.id == agent then c ∷ rest else rest

  -- Every call of this agent comes with this configuration.
  abbrev pub Constant : AgentConfig F → List (AgentConfig F × Call) → Type 0
  Constant config [] = Unit
  Constant config ((other, c) ∷ qs) = (other.id ≡ config.id → other ≡ config) × Constant config qs

  next-hash : (b : Breaker F) (c : Call) → (next F b c).config_hash ≡ b.config_hash
  unfolding next record_tool_call count_failure count_destructive active trip
  next-hash b c = ground arith

  current-hash :
      (m : Manager F) (config : AgentConfig F)
      → (current m config).config_hash ≡ hash config.circuit_breaker_json
  unfolding current get_or_create new_breaker
  current-hash m config = elim (Option-cases (lookup config.id m.breakers)) [
    | inl e ↦ ground (arith, e)
    | inr (old, e) ↦ ground (arith, e, ==_iff old.config_hash (hash config.circuit_breaker_json))
  ]

  current_found :
      (m : Manager F) (config : AgentConfig F) (b : Breaker F)
      → lookup config.id m.breakers ≡ some b
      → b.config_hash ≡ hash config.circuit_breaker_json
      → current m config ≡ b
  unfolding current get_or_create
  current_found m config b e h =
      ground (arith, e, ==_iff b.config_hash (hash config.circuit_breaker_json))

  current_eq :
      (m n : Manager F) (config : AgentConfig F)
      → lookup config.id m.breakers ≡ lookup config.id n.breakers
      → m.system_defaults ≡ n.system_defaults
      → current m config ≡ current n config
  unfolding current get_or_create
  current_eq m n config e d = elim (Option-cases (lookup config.id n.breakers)) [
    | inl f ↦ ground (arith, e, d, f)
    | inr (old, f) ↦ ground (arith, e, d, f)
  ]

  get_or_create-lookup :
      (m : Manager F) (config : AgentConfig F) (k : String)
      → config.id ≢ k
      → lookup k (get_or_create F hash parse m config).0.breakers ≡ lookup k m.breakers
  unfolding get_or_create current
  get_or_create-lookup m config k n = elim (Option-cases (lookup config.id m.breakers)) [
    | inl e ↦
        ground (
          arith,
          e,
          ==_false config.id k n,
          lookup-insert config.id k (current m config) m.breakers,
        )
    | inr (old, e) ↦
        ground (
          arith,
          e,
          ==_false config.id k n,
          lookup-insert config.id k (current m config) m.breakers,
        )
  ]

  serve-lookup :
      (m : Manager F) (config : AgentConfig F) (c : Call)
      → lookup config.id (serve m (config, c)).breakers ≡ some (next F (current m config) c)
  unfolding serve record_tool_call_for current settle_record next
  serve-lookup m config c =
      lookup-insert config.id config.id _ _ ∙ ground (arith, ==_refl config.id)

  serve-current :
      (m : Manager F) (config : AgentConfig F) (c : Call)
      → current (serve m (config, c)) config ≡ next F (current m config) c
  serve-current m config c =
      current_found (serve m (config, c)) config (next F (current m config) c)
        (serve-lookup m config c) (next-hash (current m config) c ∙ current-hash m config)

  serve-untouched :
      (m : Manager F) (other : AgentConfig F) (c : Call) (k : String)
      → other.id ≢ k
      → lookup k (serve m (other, c)).breakers ≡ lookup k m.breakers
  unfolding serve record_tool_call_for settle_record
  serve-untouched m other c k n =
      lookup-insert other.id k _ _ ∙ rw (==_false other.id k n) (get_or_create-lookup m other k n)

  serve-defaults :
      (m : Manager F) (other : AgentConfig F) (c : Call)
      → (serve m (other, c)).system_defaults ≡ m.system_defaults
  unfolding serve record_tool_call_for settle_record get_or_create
  serve-defaults m other c = elim (Option-cases (lookup other.id m.breakers)) [
    | inl e ↦ ground (arith, e)
    | inr (old, e) ↦ ground (arith, e)
  ]

  serve-other :
      (m : Manager F) (config other : AgentConfig F) (c : Call)
      → other.id ≢ config.id
      → current (serve m (other, c)) config ≡ current m config
  serve-other m config other c n =
      current_eq (serve m (other, c)) m config (serve-untouched m other c config.id n)
        (serve-defaults m other c)

  -- Whatever other agents do in between, an agent whose configuration stays the same has the breaker
  -- that its own calls, in their order, make of the one it had.
  pub serve_all-current :
      (m : Manager F) (config : AgentConfig F) (qs : List (AgentConfig F × Call))
      → Constant config qs
      → current (serve_all m qs) config ≡ run F (current m config) (calls_of config.id qs)
  unfolding serve_all calls_of run
  serve_all-current m config [] h = refl
  serve_all-current m config ((other, c) ∷ qs) h = elim (Bool-cases (other.id == config.id)) [
    | inl e ↦
        let same = h.0 ((==_iff other.id config.id).0 e) in
        rw e (
          serve_all-current (serve m (other, c)) config qs h.1
          ∙ ap (λ b. run F b (calls_of config.id qs))
              (ap (λ x. current (serve m (x, c)) config) same ∙ serve-current m config c))
    | inr e ↦ rw e (
        serve_all-current (serve m (other, c)) config qs h.1
        ∙ ap (λ b. run F b (calls_of config.id qs))
            (serve-other m config other c
              (λ p. absurd (ground (arith, e, (==_iff other.id config.id).1 p)))))
  ]
