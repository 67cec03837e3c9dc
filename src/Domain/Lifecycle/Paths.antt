-- ===== src/Domain/Lifecycle/Paths.antt =====
-- Chains of permitted lifecycle transitions.
use mayday_dispatch.Prelude.{sym, Bool-cases, ◌≡◌, ◌⊎◌, inl, inr, true, false, arith}
use mayday_dispatch.Domain.Lifecycle.{
  LifecycleState, ready, updated, archived, can_transition_lifecycle, is_public_state,
}

-- The states that a chain of transitions goes through, its first and its last state included.
pub data Chain : LifecycleState → LifecycleState → Type 0 where
  here : (s : LifecycleState) → Chain s s
  step :
      (s t : LifecycleState) {u : LifecycleState}
      → can_transition_lifecycle s t ≡ true
      → Chain t u
      → Chain s u

pub Visits : LifecycleState → {s t : LifecycleState} → Chain s t → Type 0
Visits v (here s) = v ≡ s
Visits v (step s t h p) = (v ≡ s) ⊎ Visits v p

archived-step : (s t : LifecycleState) → s ≡ archived → can_transition_lifecycle s t ≡ false
unfolding can_transition_lifecycle
archived-step s t h = ground arith

-- An archived publication stays archived, whatever transitions follow.
archived_is_final : {s t : LifecycleState} → Chain s t → s ≡ archived → t ≡ archived
archived_is_final (here s) h = h
archived_is_final (step s t ok p) h = ground (arith, archived-step s t h)

public-step :
    (s t : LifecycleState)
    → can_transition_lifecycle s t ≡ true
    → is_public_state s ≡ true
    → (t ≡ updated) ⊎ (t ≡ archived)
unfolding can_transition_lifecycle
public-step s t ok h = ground arith

-- A released publication is never unreleased by a transition: it is published, updated or archived
-- ever after.
release_is_kept :
    {s t : LifecycleState}
    → Chain s t
    → is_public_state s ≡ true
    → (is_public_state t ≡ true) ⊎ (t ≡ archived)
release_is_kept (here s) h = inl h
release_is_kept (step s t ok p) h = elim (public-step s t ok h) [
  | inl e ↦ release_is_kept p (ground arith)
  | inr e ↦ inr (archived_is_final p e)
]

enters_public :
    (s t : LifecycleState)
    → can_transition_lifecycle s t ≡ true
    → is_public_state t ≡ true
    → is_public_state s ≡ false
    → s ≡ ready
unfolding can_transition_lifecycle
enters_public s t ok h k = ground arith

-- Every chain that leads from an unreleased state to a released one goes through `ready`.
pub release_needs_ready :
    {s t : LifecycleState} (c : Chain s t)
    → is_public_state s ≡ false
    → is_public_state t ≡ true
    → Visits ready c
unfolding Visits
release_needs_ready (here s) h k = cc
release_needs_ready (step s t ok c) h k = elim (Bool-cases (is_public_state t)) [
  | inl e ↦ inl (sym (enters_public s t ok e h))
  | inr e ↦ inr (release_needs_ready c e k)
]
