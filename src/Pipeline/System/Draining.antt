-- ===== src/Pipeline/System/Draining.antt =====
-- Where the stage tasks of pipeline.rs come to when only they move: with the ingress open, and after
-- `shutdown`.
use mathlib.Core.List.{append-nil}
use rust_pipeline.Base.{
  ◌≤◌, Text, false, Option, List, [], ◌++◌, length, ◌≡◌, refl, sym, ap, ◌∙◌, inl, inr, All,
}
use rust_pipeline.Registry.{ListenerRegistry}
use rust_pipeline.Thread.{ThreadRegistry}
use rust_pipeline.Federation.Directory.{PeerDirectory}
use rust_pipeline.Pipeline.Stages.{Codec}
use rust_pipeline.Pipeline.System.{
  waiting, started, is_ended, SystemEvent, shuts_down, system_step, system_run,
}
use rust_pipeline.Pipeline.System.Order.{system_step-IsOrdered, system_run-IsOrdered}
use rust_pipeline.Pipeline.System.Fates.{NoPanic, dispatch_all, to_dispatch, to_escalate}
use rust_pipeline.Pipeline.System.Settling.{turns_left, AllWaiting, AllEnded}
use rust_pipeline.Pipeline.System.Rounds.{IsRound, run_rounds, settles}
use rust_pipeline.Pipeline.System.Front.{IsOpen, turn-IsOpen, IsShut, step-IsShut}

module _ (lower : Text → Text) (codec : Codec) (registry : ListenerRegistry)
    (federation : Option PeerDirectory) where
  -- From every state of a run in which the parser has not returned, and with nothing in the ingress on
  -- which the decoder panics: after `turns_left` rounds, in each of which every kind of turn of the
  -- four stage tasks comes at least once, in any order, no message is in a channel or in the hands
  -- of a task. The workers have been given exactly the messages that the gates let through to a
  -- listener, in their order, and the federation server those for other nodes. No worker and no
  -- sender moves meanwhile, so the stages do not need them. The channel of the federation server
  -- is taken to have room.
  pub drains :
      (threads : ThreadRegistry) (before : List SystemEvent) (rounds : List (List SystemEvent))
      → let s = system_run lower codec registry federation (started threads) before in
        is_ended s.parser ≡ false
        → All (NoPanic lower codec registry federation) s.ingress
        → All IsRound rounds
        → turns_left s ≤ length rounds
        → let s' = run_rounds lower codec registry federation s rounds in
          (s'.parsed ≡ [])
          × (s'.validated ≡ [])
          × (s'.routed_msgs ≡ [])
          × AllWaiting s'
          × (s'.pool ≡ dispatch_all s.pool (to_dispatch lower codec registry federation s))
          × (s'.escalated_msgs ≡ s.escalated_msgs ++ to_escalate lower codec registry federation s)
  drains threads before rounds alive calm fair enough =
      let s = system_run lower codec registry federation (started threads) before in
      let s' = run_rounds lower codec registry federation s rounds in
      let ((ordered, is_open, delivers), (p, v, r, how)) =
        settles lower codec registry federation (IsOpen lower codec registry federation)
          (λ s h. inr h) (turn-IsOpen lower codec registry federation) rounds s fair enough
          (system_run-IsOrdered lower codec registry federation threads before) (alive, calm) in
      elim how [
        | inr (gone, v, r, d) ↦ absurd (cc (is_open.0, ap is_ended gone))
        | inl (i, pw, vw, rw_, dw) ↦ (
          p,
          v,
          r,
          (i, pw, vw, rw_, dw),
          rw (p, v, r, pw, vw, rw_, i) at (delivers.0),
          sym (append-nil s'.escalated_msgs) ∙ rw (p, v, pw, vw, i) at (delivers.1),
        )
      ]

  -- The shutdown, from every state of a run in which the parser waits and sees the signal, whatever
  -- is still in the ingress: after `turns_left` rounds, in each of which every kind of turn of the
  -- stage tasks comes at least once, in any order, parser, validator, router and dispatcher have
  -- returned. What was in the ingress is left there. Everything behind the parser has been
  -- worked off before: the workers have been given exactly the messages that the gates let
  -- through to a listener, in their order, and the federation server those for other nodes.
  pub shutdown_ends :
      (threads : ThreadRegistry) (before : List SystemEvent) (rounds : List (List SystemEvent))
      → let s = system_run lower codec registry federation (started threads) before in
        let closing = system_step lower codec registry federation s shuts_down in
        s.parser ≡ waiting
        → All IsRound rounds
        → turns_left closing ≤ length rounds
        → let s' = run_rounds lower codec registry federation closing rounds in
          AllEnded s'
          × (s'.ingress ≡ s.ingress)
          × (s'.parsed ≡ [])
          × (s'.validated ≡ [])
          × (s'.routed_msgs ≡ [])
          × (s'.pool ≡ dispatch_all s.pool (to_dispatch lower codec registry federation closing))
          × (s'.escalated_msgs
              ≡ s.escalated_msgs ++ to_escalate lower codec registry federation closing)
  unfolding system_step
  shutdown_ends threads before rounds free fair enough =
      let s = system_run lower codec registry federation (started threads) before in
      let closing = system_step lower codec registry federation s shuts_down in
      let s' = run_rounds lower codec registry federation closing rounds in
      let ((ordered, is_shut, delivers), (p, v, r, how)) =
        settles lower codec registry federation (IsShut lower codec registry federation s.ingress)
          (λ t h. inl h.0)
          (λ t e turn o h. step-IsShut lower codec registry federation s.ingress t e h) rounds
          closing fair enough
          (system_step-IsOrdered lower codec registry federation s shuts_down
            (system_run-IsOrdered lower codec registry federation threads before))
          (rw free refl, refl) in
      elim how [
        | inl (i, pw, vw, rw_, dw) ↦ absurd (cc (is_shut.0, pw))
        | inr (pe, ve, re, de) ↦ (
          (pe, ve, re, de),
          is_shut.1,
          p,
          v,
          r,
          rw (p, v, r, pe, ve, re) at (delivers.0),
          sym (append-nil s'.escalated_msgs) ∙ rw (p, v, pe, ve) at (delivers.1),
        )
      ]
