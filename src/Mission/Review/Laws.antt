-- ===== src/Mission/Review/Laws.antt =====
-- What the finalization of a mission leaves.
use valsec.Prelude.{
  ℕ, ◌≤◌, true, false, List, [], ◌∷◌, Option, ◌≡◌, refl, ◌↔◌, All, keep, any, arith, Bool-cases,
  inl, inr, ltb, ◌&&◌,
}
use valsec.Mission.Types.{
  Mission, ready_for_review, failed, audited, collection_failed, Node, Event,
}
use valsec.Mission.Campaign.{ConfigStatus}
use valsec.Mission.Review.{
  Row, is_status_complete, is_status_failed, status_of, has_complete, has_failed, settle_as,
  settle_rows, finalize_network_mission,
}

settle_as_complete :
    (o : Option ConfigStatus) (n : Node)
    → is_status_complete o ≡ true
    → (settle_as o n).0.state ≡ audited
unfolding settle_as
settle_as_complete o n h = ground arith

settle_as_failed :
    (o : Option ConfigStatus) (n : Node)
    → is_status_failed o ≡ true
    → (settle_as o n).0.state ≡ collection_failed
unfolding settle_as
settle_as_failed o n h = ground arith

settled_complete :
    (rs : List Row) → All (λ r. r.node.state ≡ audited) (keep has_complete (settle_rows rs).0)
unfolding settle_rows
settled_complete [] = tt
settled_complete (r ∷ rs) = elim (Bool-cases (has_complete r)) [
  | inl over ↦ rw over (settle_as_complete (status_of r.config) r.node over, settled_complete rs)
  | inr other ↦ rw other (settled_complete rs)
]

settled_failed :
    (rs : List Row)
    → All (λ r. r.node.state ≡ collection_failed) (keep has_failed (settle_rows rs).0)
unfolding settle_rows
settled_failed [] = tt
settled_failed (r ∷ rs) = elim (Bool-cases (has_failed r)) [
  | inl over ↦ rw over (settle_as_failed (status_of r.config) r.node over, settled_failed rs)
  | inr other ↦ rw other (settled_failed rs)
]

-- A second pass over the rows adds no event.
settle_as_again : (o : Option ConfigStatus) (n : Node) → (settle_as o (settle_as o n).0).1.0 ≡ []
unfolding settle_as
settle_as_again o n = ground arith

settled_again : (rs : List Row) → (settle_rows (settle_rows rs).0).1.0 ≡ []
unfolding settle_rows
settled_again [] = refl
settled_again (r ∷ rs) = rw (settle_as_again (status_of r.config) r.node, settled_again rs) refl

-- Once the polls are used up the task asks for no retry. Then every row whose audit is complete
-- is audited, every row whose audit failed or was cancelled is a failed collection, another pass
-- over the rows would log no completed audit again, and the mission is ready for review exactly
-- if some audit is complete, and failed exactly if none is.
pub finalize_network_mission_final :
    (retries limit : ℕ) (mission : Mission) (rows : List Row) (events : List Event)
    → limit ≤ retries
    → let r = finalize_network_mission retries limit mission rows events in
      (r.retried ≡ false)
      × All (λ row. row.node.state ≡ audited) (keep has_complete r.rows)
      × All (λ row. row.node.state ≡ collection_failed) (keep has_failed r.rows)
      × ((settle_rows r.rows).1.0 ≡ [])
      × ((r.mission.status ≡ ready_for_review) ↔ (any has_complete rows ≡ true))
      × ((r.mission.status ≡ failed) ↔ (any has_complete rows ≡ false))
unfolding finalize_network_mission
finalize_network_mission_final retries limit mission rows events spent =
    let over : ((settle_rows rows).1.1 && ltb retries limit) ≡ false = ground (arith, spent) in
    rw over (
      refl,
      settled_complete rows,
      settled_failed rows,
      settled_again rows,
      ground arith,
      ground arith,
    )
