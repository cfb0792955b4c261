-- ===== src/Types/Graph/Sessions.antt =====
-- source/fastlint/types/type_graph.cc: the ids of a live session.
use fastlint.Base.{ℕ, ◌≡◌, ◌≢◌, ap, List, arith, length}
use fastlint.Types.Graph.{
  TypeRow, lookup, TypeGraph, type_key, set_type_session, intern, found_or_zero, by_hash,
  by_session_id, clear_session_ids,
}
use fastlint.Types.Graph.Rows.{lookup-add}
use fastlint.Types.Graph.Ids.{interned-cases, intern-found}

set_type_session-found :
    (session id : ℕ) (g : TypeGraph)
    → session ≢ 0
    → by_session_id (set_type_session session id g) session ≡ id
unfolding by_session_id set_type_session
set_type_session-found session id g h =
    ground (arith, lookup-add session session id g.type_by_session)

-- A type that a session names is found by that name until the session's ids are cleared, and by its
-- hash also afterwards.
pub intern_session :
    (row : TypeRow) (cs : List ℕ) (g : TypeGraph)
    → row.session_id ≢ 0
    → let (id, h) = intern row cs g in
      (by_session_id h row.session_id ≡ id)
      × (by_session_id (clear_session_ids h) row.session_id ≡ 0)
      × (by_hash (clear_session_ids h) (type_key g row cs) ≡ id)
intern_session row cs g live = (
  interned-cases row cs g (λ r. by_session_id r.1 row.session_id ≡ r.0)
      (λ id e. set_type_session-found row.session_id id g live)
      (λ e. set_type_session-found row.session_id (length g.types) _ live),
  unfold by_session_id clear_session_ids lookup in ground arith,
  unfold by_hash clear_session_ids in ap found_or_zero (intern-found row cs g).0,
)
