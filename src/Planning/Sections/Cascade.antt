-- ===== src/Planning/Sections/Cascade.antt =====
-- `cascade_gating` of engine/planning/sections.py: a worklist over the gates of the slots. The set
-- of skipped slots is a list without repetitions, the newest first, and the frontier is a stack.
pub mod Reach
pub mod Loop
use rfp_engine.Prelude.Dict
use rfp_engine.Prelude.{
  ℕ, zero, suc, ◌+◌, String, Bool, true, false, not, Option, none, some, List, [], ◌∷◌, ◌++◌,
  str_eq, if◌then◌else◌, any, filter, length,
}

-- What is read of a slot: its id, and the slots that its answer opens.
pub record Gater : Type 0 where
  pub slot_id : String
  pub gates : List String

abbrev pub has : String → List String → Bool
has k xs = any (λ s. str_eq s k) xs

-- `gates_by_id`
unfoldable pub gates_by_id : List Gater → Dict.Dict (List String) → Dict.Dict (List String)
gates_by_id [] m = m
gates_by_id (s ∷ ss) m = gates_by_id ss (Dict.put s.slot_id s.gates m)

abbrev or_empty : Option (List String) → List String
or_empty none = []
or_empty (some xs) = xs

-- `gates_by_id.get(sid, [])`
abbrev pub children : Dict.Dict (List String) → String → List String
children m g = or_empty (Dict.get g m)

-- The children of one gater: each one that is new is skipped, and waits on the frontier.
abbrev pub offer_one : String → List String × List String → List String × List String
offer_one c (skipped, frontier) =
    if has c skipped then (skipped, frontier) else (c ∷ skipped, c ∷ frontier)

unfoldable pub offer : List String → List String × List String → List String × List String
offer [] s = s
offer (c ∷ cs) s = offer cs (offer_one c s)

abbrev pub is_filled : List String → Bool
is_filled [] = false
is_filled (x ∷ xs) = true

-- The loop, on fuel; `none` means that the fuel ran out.
unfoldable pub cascade_loop :
    Dict.Dict (List String) → ℕ → List String × List String → Option (List String)
unfolding offer
cascade_loop m zero s = none
cascade_loop m (suc fuel) (skipped, []) = some skipped
cascade_loop m (suc fuel) (skipped, g ∷ frontier) =
    cascade_loop m fuel (offer (children m g) (skipped, frontier))

-- Every child that some slot names, as often as it is named.
unfoldable pub all_children : Dict.Dict (List String) → List String
all_children [] = []
all_children ((k, cs) ∷ m) = cs ++ all_children m

abbrev pub first_frontier : Dict.Dict (List String) → List String → List String
first_frontier m gapped = filter (λ g. is_filled (children m g)) gapped

-- A step for each gapped slot, one for each child, and one to see that nothing waits.
unfoldable pub cascade_gating : List Gater → List String → Option (List String)
unfolding gates_by_id cascade_loop all_children
cascade_gating ss gapped =
    let m = gates_by_id ss [] in
    let frontier = first_frontier m gapped in
    cascade_loop m (length frontier + length (all_children m) + 1) ([], frontier)
