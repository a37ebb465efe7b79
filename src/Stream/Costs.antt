-- ===== src/Stream/Costs.antt =====
-- client.rs `query_compat`: what a poll of the stream uses of the awaits that are left.
use mssql_tiberius_bridge.Prelude.{ℕ, ◌+◌, ◌<◌, ◌≡◌, refl, Text, Option, none, some, List, arith}
use mssql_tiberius_bridge.Driver.{Tds}
use mssql_tiberius_bridge.Error.{ok, err}
use mssql_tiberius_bridge.Query.Params.{RpcParameter}
use mssql_tiberius_bridge.Row.Writer.{Write, BridgeRowWriter, take_row, write_all}
use mssql_tiberius_bridge.Task.{Task, Outcome, completed, dropped, return, continue, ◌>>◌}
use mssql_tiberius_bridge.Connection.{Connection}
use mssql_tiberius_bridge.Operation
use mssql_tiberius_bridge.Operation.{guarded, settle}
use mssql_tiberius_bridge.Client.{health, call}
use mssql_tiberius_bridge.Client.Fuel.{Spends, await-Spends}
use mssql_tiberius_bridge.Stream.{
  QueryItem, Position, advance_stream, find_set, seek, next_set, send_query, resume,
}

module _ {S A : Type 0} where
  -- A run that gives a value has used an await.
  abbrev Pays : ℕ → Outcome A × S × ℕ → Type 0
  Pays n run = (a : A) → run.0 ≡ completed (ok a) → run.2 < n

module _ {S A B : Type 0} where
  continue-Pays :
      (r : Outcome A) (s : S) (n n' : ℕ) (f : A → Task S B)
      → ((a : A) → r ≡ completed (ok a) → n' < n)
      → ((a : A) → Spends n' (f a s n'))
      → Pays n (continue r f s n')
  continue-Pays (completed (ok a)) s n n' f hm hf b h =
      let p = hf a in let q = hm a refl in omega arith
  continue-Pays (completed (err e)) s n n' f hm hf b h = ground arith
  continue-Pays dropped s n n' f hm hf b h = ground arith

module _ {t : Tds} (k : Connection t) {A : Type 0} where
  guarded-Spends :
      (body : Task k.Conn A) (s : k.Conn) (n : ℕ)
      → Spends n (body s n)
      → Spends n (guarded (health k) body s n)
  unfolding guarded settle Operation.new Operation.ensure_usable Operation.complete Operation.drop
  guarded-Spends body s n h = ground (arith, h)

  guarded-Pays :
      (body : Task k.Conn A) (s : k.Conn) (n : ℕ)
      → Pays n (body s n)
      → Pays n (guarded (health k) body s n)
  unfolding guarded settle Operation.new Operation.ensure_usable Operation.complete Operation.drop
  guarded-Pays body s n h a e = ground (arith, h a)

module _ {t : Tds} (k : Connection t) where
  advance_stream-Spends : (s : k.Conn) (n : ℕ) → Spends n (advance_stream k s n)
  unfolding advance_stream
  advance_stream-Spends s n =
      guarded-Spends k (call k k.advance_to_rows) s n
        ((await-Spends k.interrupted k.advance_to_rows s n).0)

  find_set-Spends : (s : k.Conn) (n : ℕ) → Spends n (find_set k s n)
  unfolding find_set
  find_set-Spends s n = ground (arith, advance_stream-Spends s n)

  module _ (alloc : ℕ → ℕ) where
    seek-Spends : (i : ℕ) (s : k.Conn) (n : ℕ) → Spends n (seek k alloc i s n)
    unfolding seek
    seek-Spends i s n = ground (arith, find_set-Spends s n)

    next_set-Spends : (i : ℕ) (s : k.Conn) (n : ℕ) → Spends n (next_set k alloc i s n)
    unfolding next_set
    next_set-Spends i s n = ground (
      arith,
      advance_stream-Spends s n,
      seek-Spends (i + 1) (advance_stream k s n).1 (advance_stream k s n).2,
    )

    send_query-Spends :
        (sql : Text) (params : Option (List (RpcParameter t))) (s : k.Conn) (n : ℕ)
        → Spends n (send_query k sql params s n)
    unfolding send_query
    send_query-Spends sql none s n = (await-Spends k.interrupted (k.execute sql) s n).0
    send_query-Spends sql (some ps) s n =
        (await-Spends k.interrupted (k.execute_sp_executesql sql ps) s n).0

    sent-Pays :
        (sql : Text) (params : Option (List (RpcParameter t))) (s : k.Conn) (n : ℕ)
        → Pays n (guarded (health k) (call k k.close_query >> send_query k sql params) s n)
    sent-Pays sql params s n =
        guarded-Pays k (call k k.close_query >> send_query k sql params) s n (
          continue-Pays (call k k.close_query s n).0 (call k k.close_query s n).1 n
            (call k k.close_query s n).2 (λ done. send_query k sql params)
            ((await-Spends k.interrupted k.close_query s n).1)
            (λ done. send_query-Spends sql params _ _))

    row_or_next-Spends :
        (w : BridgeRowWriter t) (i : ℕ) (next : Option (List (Write t))) (s : k.Conn) (n : ℕ)
        → Spends n (
            (elim next
                as (λ (x : Option (List (Write t))).
                  Task k.Conn (Option (QueryItem t × Position t))) [
                    | some cells ↦ return (
                        ok (
                          some (
                            QueryItem.row (take_row (write_all w cells)).0,
                            Position.reading (take_row (write_all w cells)).1 i,
                          )))
                    | none ↦ next_set k alloc i
                  ])
              s n)
    row_or_next-Spends w i (some cells) s n = omega arith
    row_or_next-Spends w i none s n = next_set-Spends i s n

    -- The generator awaits before each of its items.
    pub resume-Pays :
        (p : Position t) (s : k.Conn) (n : ℕ) (item : QueryItem t × Position t)
        → (resume k alloc p s n).0 ≡ completed (ok (some item))
        → (resume k alloc p s n).2 < n
    unfolding resume
    resume-Pays (Position.start sql params) s n item h =
        continue-Pays _ _ n _ (λ sent. seek k alloc 0) (sent-Pays sql params s n)
          (λ sent. seek-Spends 0 _ _) (some item) h
    resume-Pays (Position.reading w i) s n item h =
        continue-Pays _ _ n _ _
          (guarded-Pays k (call k k.next_row_into) s n
            ((await-Spends k.interrupted k.next_row_into s n).1))
          (λ next. row_or_next-Spends w i next _ _) (some item) h
    resume-Pays Position.finished s n item h = ground arith
