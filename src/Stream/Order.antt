-- ===== src/Stream/Order.antt =====
-- client.rs `query_compat`: the order of the items of a stream, and what each carries.
use mssql_tiberius_bridge.Prelude.{
  ℕ, ◌+◌, ◌≡◌, ◌∙◌, ap, refl, Text, Option, none, some, List, Bool-cases, Option-cases, inl, inr,
}
use mssql_tiberius_bridge.Driver.{Tds}
use mssql_tiberius_bridge.Error.{ok, err}
use mssql_tiberius_bridge.Query.Params.{RpcParameter}
use mssql_tiberius_bridge.Row.Cells.{Row, from_schema, from_parts}
use mssql_tiberius_bridge.Row.Writer.Laws.{take_row-write_all}
use mssql_tiberius_bridge.Row.Writer.{
  Write, BridgeRowWriter, with_result_index, take_row, write_all,
}
use mssql_tiberius_bridge.Task.{Task, Outcome, completed, dropped, continue, ◌>>=◌, ◌>>◌}
use mssql_tiberius_bridge.Connection.{Connection}
use mssql_tiberius_bridge.Operation.{guarded}
use mssql_tiberius_bridge.Client.{health, call}
use mssql_tiberius_bridge.Stream.{
  QueryItem, Position, advance_stream, find_set, seek, next_set, resume, send_query,
}

module _ {t : Tds} where
  -- What may come from where a stream is suspended: the metadata of the next set, counted from 0,
  -- or a row of the set that is being read, under its schema and index.
  abbrev pub Follows : Position t → QueryItem t → Position t → Type 0
  Follows (Position.start sql params) (QueryItem.metadata m) q =
      (m.result_index ≡ 0) × (q ≡ Position.reading (with_result_index m.schema 0) 0)
  Follows (Position.reading w i) (QueryItem.metadata m) q =
      (m.result_index ≡ i + 1) × (q ≡ Position.reading (with_result_index m.schema (i + 1)) (i + 1))
  Follows (Position.reading w i) (QueryItem.row r) q =
      (r.schema ≡ w.schema)
      × (r.result_index ≡ i)
      × (q ≡ Position.reading (with_result_index w.schema i) i)
  Follows _ _ _ = ⊥

  -- Between rows the writer holds nothing and stands for the set that is being read.
  abbrev IsBetween : Position t → Type 0
  IsBetween (Position.reading w i) = w ≡ with_result_index w.schema i
  IsBetween _ = Unit

  abbrev Opens : ℕ → QueryItem t → Position t → Type 0
  Opens i (QueryItem.metadata m) q =
      (m.result_index ≡ i) × (q ≡ Position.reading (with_result_index m.schema i) i)
  Opens i (QueryItem.row r) q = ⊥

  -- A run that yields an item yields one that the predicate allows.
  abbrev pub Yields :
      (QueryItem t → Position t → Type 0) → Outcome (Option (QueryItem t × Position t)) → Type 0
  Yields P (completed (ok (some (item, q)))) = P item q
  Yields P _ = Unit

module _ {t : Tds} {S A : Type 0} (P : QueryItem t → Position t → Type 0) where
  continue-Yields :
      (r : Outcome A) (s : S) (n : ℕ) (f : A → Task S (Option (QueryItem t × Position t)))
      → ((a : A) → Yields P (f a s n).0)
      → Yields P (continue r f s n).0
  continue-Yields (completed (ok a)) s n f h = h a
  continue-Yields (completed (err e)) s n f h = tt
  continue-Yields dropped s n f h = tt

  bind-Yields :
      (m : Task S A) (f : A → Task S (Option (QueryItem t × Position t))) (s : S) (n : ℕ)
      → ((a : A) (s' : S) (n' : ℕ) → Yields P (f a s' n').0)
      → Yields P ((m >>= f) s n).0
  bind-Yields m f s n h =
      continue-Yields (m s n).0 (m s n).1 (m s n).2 f (λ a. h a (m s n).1 (m s n).2)

module _ {t : Tds} where
  Yields-weaken :
      (P Q : QueryItem t → Position t → Type 0) (r : Outcome (Option (QueryItem t × Position t)))
      → ((item : QueryItem t) (q : Position t) → P item q → Q item q)
      → Yields P r
      → Yields Q r
  Yields-weaken P Q (completed (ok (some (item, q)))) w h = w item q h
  Yields-weaken P Q (completed (ok none)) w h = tt
  Yields-weaken P Q (completed (err e)) w h = tt
  Yields-weaken P Q dropped w h = tt

  Opens-start :
      (sql : Text) (params : Option (List (RpcParameter t))) (item : QueryItem t) (q : Position t)
      → Opens 0 item q
      → Follows (Position.start sql params) item q
  Opens-start sql params (QueryItem.metadata m) q h = h
  Opens-start sql params (QueryItem.row r) q h = h

  Opens-reading :
      (w : BridgeRowWriter t) (i : ℕ) (item : QueryItem t) (q : Position t)
      → Opens (i + 1) item q
      → Follows (Position.reading w i) item q
  Opens-reading w i (QueryItem.metadata m) q h = h
  Opens-reading w i (QueryItem.row r) q h = absurd h

  take_row-Follows :
      (w : BridgeRowWriter t) (i : ℕ) (cells : List (Write t))
      → w ≡ with_result_index w.schema i
      → Follows
          (Position.reading w i)
          (QueryItem.row (take_row (write_all w cells)).0)
          (Position.reading (take_row (write_all w cells)).1 i)
  unfolding from_schema from_parts
  take_row-Follows w i cells h =
      let e = ap (λ v. take_row (write_all v cells)) h ∙ take_row-write_all w.schema i cells in
      (
        ap (λ (r : Row t × BridgeRowWriter t). r.0.schema) e,
        ap (λ (r : Row t × BridgeRowWriter t). r.0.result_index) e,
        ap (λ (r : Row t × BridgeRowWriter t). Position.reading r.1 i) e,
      )

module _ {t : Tds} (k : Connection t) (alloc : ℕ → ℕ) where
  seek-Opens : (i : ℕ) (s : k.Conn) (n : ℕ) → Yields (Opens i) (seek k alloc i s n).0
  unfolding seek
  seek-Opens i s n =
      bind-Yields (Opens i) (find_set k) _ s n
        (λ here s' n'. elim (Bool-cases here) [ inl e ↦ rw (e) (refl, refl) | inr e ↦ rw (e) tt ])

  next_set-Opens : (i : ℕ) (s : k.Conn) (n : ℕ) → Yields (Opens (i + 1)) (next_set k alloc i s n).0
  unfolding next_set
  next_set-Opens i s n = bind-Yields (Opens (i + 1)) (advance_stream k) _ s n (λ more s' n'.
      elim (Bool-cases more) [ inl e ↦ rw (e) (seek-Opens (i + 1) s' n') | inr e ↦ rw (e) tt ])

  -- From a stream that is suspended before its first item or, with nothing in its row writer, in a
  -- set, the items come in order: the first is the metadata of set 0; from then on each is a row
  -- under the schema and the index of the set whose metadata came last, or the metadata of the set
  -- with the next index. After each item the stream is suspended in the item's set with nothing in
  -- its row writer.
  pub resume-Follows :
      (p : Position t) (s : k.Conn) (n : ℕ)
      → IsBetween p
      → Yields (Follows p) (resume k alloc p s n).0
  unfolding resume
  resume-Follows (Position.start sql params) s n h =
      Yields-weaken (Opens 0) (Follows (Position.start sql params)) _ (Opens-start sql params) (
        bind-Yields (Opens 0) (guarded (health k) (call k k.close_query >> send_query k sql params))
          (λ sent. seek k alloc 0) s n (λ sent s' n'. seek-Opens 0 s' n'))
  resume-Follows (Position.reading w i) s n h =
      bind-Yields (Follows (Position.reading w i)) (guarded (health k) (call k k.next_row_into)) _ s
        n
        (λ next s' n'. elim (Option-cases next) [
          | inl e ↦ rw (e) (
              Yields-weaken (Opens (i + 1)) (Follows (Position.reading w i)) _ (Opens-reading w i)
                (next_set-Opens i s' n'))
          | inr (cells, e) ↦ rw (e) (take_row-Follows w i cells h)
        ])
  resume-Follows Position.finished s n h = tt
