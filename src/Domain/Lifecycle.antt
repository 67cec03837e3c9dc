-- ===== src/Domain/Lifecycle.antt =====
-- src/domain/publication.ts: the lifecycle states and their transitions.
pub mod Paths
use mayday_dispatch.Prelude.{Bool, true, false, ◌&&◌, ◌||◌, List, [], ◌∷◌, any}

pub data LifecycleState : Type 0 where
  draft review ready published updated archived : LifecycleState

-- `===` on states
abbrev pub same_state : LifecycleState → LifecycleState → Bool
same_state draft draft = true
same_state review review = true
same_state ready ready = true
same_state published published = true
same_state updated updated = true
same_state archived archived = true
same_state _ _ = false

unfoldable pub lifecycle_transitions : LifecycleState → List LifecycleState
lifecycle_transitions draft = review ∷ archived ∷ []
lifecycle_transitions review = draft ∷ ready ∷ archived ∷ []
lifecycle_transitions ready = review ∷ published ∷ archived ∷ []
lifecycle_transitions published = updated ∷ archived ∷ []
lifecycle_transitions updated = updated ∷ archived ∷ []
lifecycle_transitions archived = []

unfoldable pub can_transition_lifecycle : LifecycleState → LifecycleState → Bool
unfolding lifecycle_transitions
can_transition_lifecycle from to = any (same_state to) (lifecycle_transitions from)

-- `PUBLIC_LIFECYCLE_STATES.includes(state)`, also written out as two tests in the source
abbrev pub is_public_state : LifecycleState → Bool
is_public_state published = true
is_public_state updated = true
is_public_state _ = false
