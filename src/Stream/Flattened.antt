-- ===== src/Stream/Flattened.antt =====
-- client.rs `query_streamed`: the rows that arrive are the rows of the buffered query.
use mssql_tiberius_bridge.Prelude.{
  ℕ, zero, suc, ◌<◌, ◌≡◌, refl, sym, ap, ◌∙◌, Text, Option, none, some, List, [], ◌∷◌, ◌++◌, arith,
}
use mathlib.Core.List.{append_assoc, append-nil}
use mssql_tiberius_bridge.Driver.{Tds, SqlType}
use mssql_tiberius_bridge.Error.{Result, ok, err}
use mssql_tiberius_bridge.Query.Results.{QueryResult}
use mssql_tiberius_bridge.Query.Laws.{concat}
use mssql_tiberius_bridge.Row.Schema.{RowSchema}
use mssql_tiberius_bridge.Row.Cells.{Row}
use mssql_tiberius_bridge.Task.{Outcome, completed, dropped, return, ◌>>=◌}
use mssql_tiberius_bridge.Connection.{Connection}
use mssql_tiberius_bridge.Client.{Client, query}
use mssql_tiberius_bridge.Stream.{
  QueryItem, Position, QueryStream, resume, suspend, poll_inner, poll_next, columns_after, push_row,
  collect_items, query_compat, into_results,
}
use mssql_tiberius_bridge.Stream.Rounds.{UsableLaws, suspended, items_after, collect_items-suc}
use mssql_tiberius_bridge.Stream.Costs.{resume-Pays}
use mssql_tiberius_bridge.Stream.Collected.{sets_of, into_results-query_compat}
use mssql_tiberius_bridge.Stream.Flat.{
  next_streamed, poll_streamed, collect_streamed, into_row_stream, query_streamed,
}

module _ {A : Type 0} where
  concat-append :
      (sets : List (List A)) (set : List A) → concat (sets ++ set ∷ []) ≡ concat sets ++ set
  concat-append [] set = append-nil set
  concat-append (x ∷ sets) set =
      ap (λ l. x ++ l) (concat-append sets set) ∙ sym (append_assoc x (concat sets) set)

concat-push_row :
    {t : Tds} (sets : List (List (Row t))) (r : Row t)
    → concat (push_row sets r) ≡ concat sets ++ r ∷ []
unfolding push_row
concat-push_row [] r = refl
concat-push_row (set ∷ []) r =
    append-nil (set ++ r ∷ []) ∙ ap (λ l. l ++ r ∷ []) (sym (append-nil set))
concat-push_row (set ∷ next ∷ sets) r =
    ap (λ l. set ++ l) (concat-push_row (next ∷ sets) r)
    ∙ sym (append_assoc set (concat (next ∷ sets)) (r ∷ []))

module _ {t : Tds} (k : Connection t) (alloc : ℕ → ℕ) where
  -- The rows of the sets that a run has collected, set after set.
  abbrev flat : Outcome (List (List (Row t))) × k.Conn × ℕ → Outcome (List (Row t)) × k.Conn × ℕ
  flat (completed (ok sets), s, n) = (completed (ok (concat sets)), s, n)
  flat (completed (err e), s, n) = (completed (err e), s, n)
  flat (dropped, s, n) = (dropped, s, n)

  -- The collecting loop after a poll of the row stream.
  unfoldable rows_after :
      ℕ
      → List (Row t)
      → Outcome (Option (Result (Row t)) × Option (QueryStream t)) × k.Conn × ℕ
      → Outcome (List (Row t)) × k.Conn × ℕ
  rows_after g rows (completed (ok (none, rest)), s, n) = (completed (ok rows), s, n)
  rows_after g rows (completed (ok (some (err e), rest)), s, n) = (completed (err e), s, n)
  rows_after g rows (completed (ok (some (ok r), rest)), s, n) =
      collect_streamed k alloc g rest (rows ++ r ∷ []) s n
  rows_after g rows (completed (err e), s, n) = (completed (err e), s, n)
  rows_after g rows (dropped, s, n) = (dropped, s, n)

  -- Both loops after a poll of the stream under them.
  unfoldable streamed_after :
      ℕ
      → ℕ
      → Option RowSchema
      → List (Row t)
      → Outcome (Option (Result (QueryItem t)) × Position t) × k.Conn × ℕ
      → Outcome (List (Row t)) × k.Conn × ℕ
  unfolding rows_after
  streamed_after f g c rows (completed (ok (none, p)), s, n) = (completed (ok rows), s, n)
  streamed_after f g c rows (completed (ok (some (err e), p)), s, n) = (completed (err e), s, n)
  streamed_after f g c rows (completed (ok (some (ok (QueryItem.metadata m)), p)), s, n) =
      rows_after g rows (next_streamed k alloc f (suspended p (some m.schema)) s n)
  streamed_after f g c rows (completed (ok (some (ok (QueryItem.row r)), p)), s, n) =
      collect_streamed k alloc g (some (suspended p c)) (rows ++ r ∷ []) s n
  streamed_after f g c rows (completed (err e), s, n) = (completed (err e), s, n)
  streamed_after f g c rows (dropped, s, n) = (dropped, s, n)

  collected_cases :
      (g : ℕ) (rows : List (Row t)) (o : Outcome (Option (Result (Row t)) × Option (QueryStream t)))
      (s : k.Conn) (n : ℕ)
      → ((λ (z : k.Conn) (m : ℕ). (o, s, n)) >>= λ (item, stream'). elim item [
        | none ↦ return (ok rows)
        | some polled ↦ elim polled [
          | err e ↦ return (err e)
          | ok r ↦ λ s' n'. collect_streamed k alloc g stream' (rows ++ r ∷ []) s' n'
        ]
      ])
          s n
        ≡ rows_after g rows (o, s, n)
  unfolding rows_after
  collected_cases g rows (completed (ok (none, rest))) s n = refl
  collected_cases g rows (completed (ok (some (err e), rest))) s n = refl
  collected_cases g rows (completed (ok (some (ok r), rest))) s n = refl
  collected_cases g rows (completed (err e)) s n = refl
  collected_cases g rows dropped s n = refl

  collect_streamed-suc :
      (g : ℕ) (stream : QueryStream t) (rows : List (Row t)) (s : k.Conn) (n : ℕ)
      → collect_streamed k alloc (suc g) (some stream) rows s n
        ≡ rows_after g rows (next_streamed k alloc (suc (suc n)) stream s n)
  unfolding collect_streamed poll_streamed
  collect_streamed-suc g stream rows s n =
      collected_cases g rows (next_streamed k alloc (suc (suc n)) stream s n).0
        (next_streamed k alloc (suc (suc n)) stream s n).1
        (next_streamed k alloc (suc (suc n)) stream s n).2

  polled_cases :
      (f g : ℕ) (c : Option RowSchema) (rows : List (Row t))
      (o : Outcome (Option (Result (QueryItem t)) × Position t)) (s : k.Conn) (n : ℕ)
      → rows_after g rows (
          (((λ (z : k.Conn) (m : ℕ). (o, s, n)) >>= λ (item, p).
          return (ok (item, record { inner = p; peeked = none; columns = columns_after item c })))
              >>= λ (item, stream'). elim item [
                | none ↦ return (ok (none, none))
                | some polled ↦ elim polled [
                  | err e ↦ return (ok (some (err e), none))
                  | ok i ↦ elim i [
                    | QueryItem.row r ↦ return (ok (some (ok r), some stream'))
                    | QueryItem.metadata m ↦ λ s' n'. next_streamed k alloc f stream' s' n'
                  ]
                ]
              ])
            s n)
        ≡ streamed_after f g c rows (o, s, n)
  unfolding rows_after streamed_after columns_after
  polled_cases f g c rows (completed (ok (none, p))) s n = refl
  polled_cases f g c rows (completed (ok (some (err e), p))) s n = refl
  polled_cases f g c rows (completed (ok (some (ok (QueryItem.metadata m)), p))) s n = refl
  polled_cases f g c rows (completed (ok (some (ok (QueryItem.row r)), p))) s n = refl
  polled_cases f g c rows (completed (err e)) s n = refl
  polled_cases f g c rows dropped s n = refl

  next_streamed-suc :
      (f g : ℕ) (p : Position t) (c : Option RowSchema) (rows : List (Row t)) (s : k.Conn) (n : ℕ)
      → rows_after g rows (next_streamed k alloc (suc f) (suspended p c) s n)
        ≡ streamed_after f g c rows (poll_inner k alloc p s n)
  unfolding next_streamed poll_next
  next_streamed-suc f g p c rows s n =
      polled_cases f g c rows (poll_inner k alloc p s n).0 (poll_inner k alloc p s n).1
        (poll_inner k alloc p s n).2

  -- Streaming from `p` agrees with collecting from `p`, with fewer awaits left than the bound.
  abbrev Flattens : ℕ → Type 0
  Flattens h =
      (f g n : ℕ) (p : Position t) (c : Option RowSchema) (results : List (List (Row t)))
      (s : k.Conn)
      → n < h
      → n < f
      → n < g
      → rows_after g (concat results) (next_streamed k alloc f (suspended p c) s n)
        ≡ flat (collect_items k alloc h (suspended p c) results s n)

  polled-Flattens :
      (h f g n n' : ℕ) (c : Option RowSchema) (results : List (List (Row t)))
      (o : Outcome (Option (QueryItem t × Position t))) (s : k.Conn)
      → Flattens h
      → n < suc h
      → n < suc f
      → n < suc g
      → ((item : QueryItem t × Position t) → o ≡ completed (ok (some item)) → n' < n)
      → streamed_after f (suc g) c (concat results) (suspend k alloc (o, s, n'))
        ≡ flat (items_after k alloc h c results (suspend k alloc (o, s, n')))
  unfolding streamed_after suspend items_after
  polled-Flattens h f g n n' c results (completed (ok none)) s ih hh hf hg pays = refl
  polled-Flattens h f g n n' c results (completed (ok (some (QueryItem.metadata m, p)))) s ih hh hf
        hg pays =
      let lt = pays (QueryItem.metadata m, p) refl in
      ap
        (λ rows.
          rows_after (suc g) rows (next_streamed k alloc f (suspended p (some m.schema)) s n'))
        (sym (append-nil (concat results)) ∙ sym (concat-append results []))
      ∙ ih f (suc g) n' p (some m.schema) (results ++ [] ∷ []) s (omega arith) (omega arith)
          (omega arith)
  polled-Flattens h f g n n' c results (completed (ok (some (QueryItem.row r, p)))) s ih hh hf hg
        pays =
      let lt = pays (QueryItem.row r, p) refl in
      collect_streamed-suc g (suspended p c) (concat results ++ r ∷ []) s n'
      ∙ ap (λ rows. rows_after g rows (next_streamed k alloc (suc (suc n')) (suspended p c) s n'))
          (sym (concat-push_row results r))
      ∙ ih (suc (suc n')) g n' p c (push_row results r) s (omega arith) (omega arith) (omega arith)
  polled-Flattens h f g n n' c results (completed (err e)) s ih hh hf hg pays = refl
  polled-Flattens h f g n n' c results dropped s ih hh hf hg pays = refl

  streams-Flatten : (h : ℕ) → Flattens h
  unfolding suspend poll_inner
  streams-Flatten zero f g n p c results s hh hf hg = absurd (omega arith)
  streams-Flatten (suc h) zero g n p c results s hh hf hg = absurd (omega arith)
  streams-Flatten (suc h) (suc f) zero n p c results s hh hf hg = absurd (omega arith)
  streams-Flatten (suc h) (suc f) (suc g) n p c results s hh hf hg =
      next_streamed-suc f (suc g) p c (concat results) s n
      ∙ polled-Flattens h f g n (resume k alloc p s n).2 c results (resume k alloc p s n).0
          (resume k alloc p s n).1 (streams-Flatten h) hh hf hg (resume-Pays k alloc p s n)
      ∙ ap flat (sym (collect_items-suc k alloc h p c results s n))

  -- The rows of a buffered query, set after set.
  abbrev pub rows_of : Outcome (QueryResult (Row t)) → Outcome (List (Row t))
  rows_of (completed (ok r)) = completed (ok (concat r.result_sets))
  rows_of (completed (err e)) = completed (err e)
  rows_of dropped = dropped

  flat-sets_of :
      (o : Outcome (QueryResult (Row t))) (s : k.Conn) (n : ℕ)
      → flat (sets_of o, s, n) ≡ (rows_of o, s, n)
  flat-sets_of (completed (ok r)) s n = refl
  flat-sets_of (completed (err e)) s n = refl
  flat-sets_of dropped s n = refl

  -- A caller that polls a streamed query up to its end or its first error gets what the buffered
  -- query gives: the rows of all its result sets, set after set, each once and in order, or the same
  -- error, the same state of the connection and the same awaits used, with and without parameters,
  -- on a dead connection, and wherever the caller stops. The driver must keep a usable connection
  -- usable in calls that succeed.
  pub query_streamed-query :
      (sql : Text) (params : List (SqlType t)) (c : Client k.Conn) (n : ℕ)
      → UsableLaws k
      → collect_streamed k alloc (suc (suc n)) (query_streamed k c sql params) [] c.inner n ≡ (
        rows_of (query k alloc sql params c n).0,
        (query k alloc sql params c n).1.inner,
        (query k alloc sql params c n).2,
      )
  unfolding query_streamed into_row_stream query_compat into_results
  query_streamed-query sql params c n laws =
      let stream = query_compat k c sql params in
      let run = query k alloc sql params c n in
      collect_streamed-suc (suc n) stream [] c.inner n
      ∙ streams-Flatten (suc (suc n)) (suc (suc n)) (suc n) n stream.inner none [] c.inner
          (omega arith) (omega arith) (omega arith)
      ∙ ap flat (into_results-query_compat k alloc sql params c n laws)
      ∙ flat-sets_of run.0 run.1.inner run.2
