-- ===== src/Web/Events/Read.antt =====
-- The lane as a reader sees it: `last_wins` of engine/metrics/walker.py collapses the copies of an
-- event, and `finalized_by_cid` of engine/web/events.py indexes what was finalized.
use rfp_engine.Prelude.Dict
use rfp_engine.Prelude.{
  find?, zero, length, str_eq, suc, none, [], ◌++◌, if◌then◌else◌, ◌∷◌, some, String, List, Option,
  ℕ,
}
use rfp_engine.Web.Events.Types.{has_id, Event}

-- out[n] = event
unfoldable pub set_at : ℕ → Event → List Event → List Event
set_at n e [] = []
set_at zero e (x ∷ xs) = e ∷ xs
set_at (suc n) e (x ∷ xs) = x ∷ set_at n e xs

-- The event id, where it is there and not empty.
unfoldable pub id_of : Option String → Option String
id_of none = none
id_of (some i) = if str_eq i "" then none else some i

abbrev pub placed : Option ℕ → String → Event → List Event → Dict.Dict ℕ → List Event × Dict.Dict ℕ
placed (some n) i e out index = (set_at n e out, index)
placed none i e out index = (out ++ e ∷ [], Dict.put i (length out) index)

abbrev pub taken : Option String → Event → List Event → Dict.Dict ℕ → List Event × Dict.Dict ℕ
taken none e out index = (out ++ e ∷ [], index)
taken (some i) e out index = placed (Dict.get i index) i e out index

-- The loop over the lines.
unfoldable pub collapse : List Event → List Event → Dict.Dict ℕ → List Event
unfolding set_at id_of
collapse [] out index = out
collapse (e ∷ es) out index =
    let next = taken (id_of e.event_id) e out index in collapse es next.0 next.1

unfoldable pub last_wins : List Event → List Event
unfolding collapse
last_wins es = collapse es [] []

-- The last of the lines that has an id, and the first.
unfoldable pub latest : String → List Event → Option Event
latest i [] = none
latest i (x ∷ xs) =
    let rest = latest i xs in
    elim rest [ some y ↦ some y | none ↦ if has_id i x then some x else none ]

unfoldable pub event_of : String → List Event → Option Event
event_of i xs = find? (has_id i) xs

abbrev pub put_cid : Option String → Event → Dict.Dict Event → Dict.Dict Event
put_cid none e m = m
put_cid (some c) e m = if str_eq c "" then m else Dict.put c e m

-- The dict of `finalized_by_cid`, from the events as they are read.
unfoldable pub index_by_cid : List Event → Dict.Dict Event → Dict.Dict Event
index_by_cid [] m = m
index_by_cid (e ∷ es) m = index_by_cid es (put_cid e.cid e m)
