-- ===== src/Pipeline/System/Rounds.antt =====
-- Rounds in which each task of pipeline.rs has its turns, and where they lead.
use rust_pipeline.Base.{
  ◌≤◌, ◌<◌, Text, Option, List, [], ◌∷◌, length, ◌≡◌, refl, ap, ◌∙◌, ◌⊎◌, inl, inr, arith, All,
}
use rust_pipeline.Registry.{ListenerRegistry}
use rust_pipeline.Federation.Directory.{PeerDirectory}
use rust_pipeline.Pipeline.Stages.{Codec}
use rust_pipeline.Pipeline.System.{System, SystemEvent, system_step, system_run}
use rust_pipeline.Pipeline.System.Order.{IsOrdered, system_step-IsOrdered}
use rust_pipeline.Pipeline.System.Fates.{IsTurn, IsCalm, Delivers}
use rust_pipeline.Pipeline.System.Delivery.{turn-Delivers}
use rust_pipeline.Pipeline.System.Settling.{turns_left, IsSettled, turn-Advances}
use rust_pipeline.Pipeline.System.Progress.{IsSettled-or_moves, settled_stays}

abbrev pub Occurs : SystemEvent → List SystemEvent → Type 0
Occurs e [] = ⊥
Occurs e (x ∷ xs) = (x ≡ e) ⊎ Occurs e xs

-- Turns of the stage tasks in any order and number, with each kind of turn among them.
abbrev pub IsRound : List SystemEvent → Type 0
IsRound es = All IsTurn es × ((e : SystemEvent) → IsTurn e → Occurs e es)

module _ (lower : Text → Text) (codec : Codec) (registry : ListenerRegistry)
    (federation : Option PeerDirectory) where
  -- One round after the other.
  abbrev pub run_rounds : System → List (List SystemEvent) → System
  run_rounds s [] = s
  run_rounds s (r ∷ rs) = run_rounds (system_run lower codec registry federation s r) rs

  run-settled :
      (es : List SystemEvent) (s : System)
      → All IsTurn es
      → IsSettled s
      → system_run lower codec registry federation s es ≡ s
  unfolding system_run
  run-settled [] s turns settled = refl
  run-settled (e ∷ es) s turns settled =
      rw (settled_stays lower codec registry federation s e turns.0 settled)
        (run-settled es s turns.1 settled)

  rounds-settled :
      (rs : List (List SystemEvent)) (s : System)
      → All IsRound rs
      → IsSettled s
      → run_rounds s rs ≡ s
  rounds-settled [] s rounds settled = refl
  rounds-settled (r ∷ rs) s rounds settled =
      rw (run-settled r s rounds.0.0 settled) (rounds-settled rs s rounds.1 settled)

module _ (lower : Text → Text) (codec : Codec) (registry : ListenerRegistry)
    (federation : Option PeerDirectory) (Kept : System → Type 0)
    (calm : (s : System) → Kept s → IsCalm lower codec registry federation s)
    (kept : (s : System) (e : SystemEvent)
      → IsTurn e
      → IsOrdered s
      → Kept s
      → Kept (system_step lower codec registry federation s e)) where
  abbrev run : System → List SystemEvent → System
  run s es = system_run lower codec registry federation s es

  -- What turns keep, and what they bring.
  abbrev Leads : System → System → Type 0
  Leads s s' = IsOrdered s' × Kept s' × Delivers lower codec registry federation s s'

  Leads-trans : (s s' s'' : System) → Leads s s' → Leads s' s'' → Leads s s''
  Leads-trans s s' s'' (o, k, d) (o', k', d') = (o', k', (d'.0 ∙ d.0, d'.1 ∙ d.1))

  turn-Leads :
      (s : System) (e : SystemEvent)
      → IsTurn e
      → IsOrdered s
      → Kept s
      → Leads s (system_step lower codec registry federation s e)
  turn-Leads s e turn h k = (
    system_step-IsOrdered lower codec registry federation s e h,
    kept s e turn h k,
    turn-Delivers lower codec registry federation s e turn h (calm s k),
  )

  run-Leads :
      (es : List SystemEvent) (s : System)
      → All IsTurn es
      → IsOrdered s
      → Kept s
      → Leads s (run s es)
  unfolding system_run
  run-Leads [] s turns h k = (h, k, (refl, refl))
  run-Leads (e ∷ es) s turns h k =
      let s' = system_step lower codec registry federation s e in
      let first = turn-Leads s e turns.0 h k in
      Leads-trans s s' (run s' es) first (run-Leads es s' turns.1 first.0 first.1)

  -- In turns without effect, each of them has none.
  abbrev Idle : System → List SystemEvent → Type 0
  Idle s es =
      (run s es ≡ s)
      × ((e : SystemEvent) → Occurs e es → system_step lower codec registry federation s e ≡ s)

  run-Advances :
      (es : List SystemEvent) (s : System)
      → All IsTurn es
      → IsOrdered s
      → Kept s
      → Idle s es ⊎ (turns_left (run s es) < turns_left s)
  unfolding system_run
  run-Advances [] s turns h k = inl (refl, λ e occurs. elim occurs [ ])
  run-Advances (e ∷ es) s turns h k =
      let s' = system_step lower codec registry federation s e in
      let first = turn-Leads s e turns.0 h k in
      elim (turn-Advances lower codec registry federation s e turns.0 h) [
        | inl same ↦ elim (run-Advances es s turns.1 h k) [
          | inl (still, none_moves) ↦ inl (
            rw same still,
            λ e' occurs. elim occurs [ inl is ↦ rw (← is) same | inr later ↦ none_moves e' later ],
          )
          | inr less ↦ let size = ap (λ x. turns_left (run x es)) same in inr (omega arith)
        ]
        | inr less ↦ elim (run-Advances es s' turns.1 first.0 first.1) [
          | inl (still, none_moves) ↦ let size = ap turns_left still in inr (omega arith)
          | inr less' ↦ inr (omega arith)
        ]
      ]

  Idle-stuck :
      (s : System) (r : List SystemEvent) (e : SystemEvent)
      → Idle s r
      → Occurs e r
      → ¬ (turns_left (system_step lower codec registry federation s e) < turns_left s)
  Idle-stuck s r e idle occurs less = let size = ap turns_left (idle.1 e occurs) in omega arith

  pub settles :
      (rs : List (List SystemEvent)) (s : System)
      → All IsRound rs
      → turns_left s ≤ length rs
      → IsOrdered s
      → Kept s
      → let s' = run_rounds lower codec registry federation s rs in Leads s s' × IsSettled s'
  settles [] s rounds le h k = elim (IsSettled-or_moves lower codec registry federation s h) [
    | inl settled ↦ ((h, k, (refl, refl)), settled)
    | inr (e, turn, less) ↦ absurd (omega arith)
  ]
  settles (r ∷ rs) s rounds le h k = elim (IsSettled-or_moves lower codec registry federation s h) [
    | inl settled ↦
        rw (rounds-settled lower codec registry federation (r ∷ rs) s rounds settled)
          ((h, k, (refl, refl)), settled)
    | inr (e, turn, less) ↦ elim (run-Advances r s rounds.0.0 h k) [
      | inl idle ↦ absurd (Idle-stuck s r e idle (rounds.0.1 e turn) less)
      | inr less' ↦
          let first = run-Leads r s rounds.0.0 h k in
          let (rest, settled) = settles rs (run s r) rounds.1 (omega arith) first.0 first.1 in
          (
            Leads-trans s (run s r) (run_rounds lower codec registry federation (run s r) rs) first
                rest,
            settled,
          )
    ]
  ]
