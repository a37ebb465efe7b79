-- ===== src/Stream/Peek.antt =====
-- compat.rs: looking ahead with `columns` loses no item.
use mssql_tiberius_bridge.Prelude.{ℕ, ◌≡◌, Option, none, some, List, arith, Option-cases, inl, inr}
use mssql_tiberius_bridge.Driver.{Tds}
use mssql_tiberius_bridge.Error.{ok, err}
use mssql_tiberius_bridge.Column.{Column}
use mssql_tiberius_bridge.Task.{Outcome, completed, dropped, return, ◌>>=◌}
use mssql_tiberius_bridge.Connection.{Connection}
use mssql_tiberius_bridge.Stream.{
  QueryItem, Position, QueryStream, resume, suspend, poll_inner, poll_next, columns, peek,
  columns_after,
}

module _ {t : Tds} (k : Connection t) (alloc : ℕ → ℕ) where
  -- The two routes from what the generator gave.
  after_suspend :
      (stream stream' : QueryStream t) (r : Outcome (Option (QueryItem t × Position t)))
      (s s' : k.Conn) (n n' : ℕ) (cols : Option (List Column))
      → ((λ (z : k.Conn) (m : ℕ). suspend k alloc (r, s, n)) >>= λ polled.
            return (ok (peek k alloc stream polled)))
          s n
        ≡ (completed (ok (ok cols, stream')), s', n')
      → poll_next k alloc stream' s' n'
        ≡ ((λ (z : k.Conn) (m : ℕ). suspend k alloc (r, s, n)) >>= λ (item, p). return (
              ok (
                item,
                record { inner = p; peeked = none; columns = columns_after item stream.columns },
              )))
            s n
  unfolding poll_next peek columns_after suspend poll_inner resume
  after_suspend stream stream' (completed (ok none)) s s' n n' cols h = ground arith
  after_suspend stream stream' (completed (ok (some (QueryItem.row r, p)))) s s' n n' cols h =
      ground arith
  after_suspend stream stream' (completed (ok (some (QueryItem.metadata m, p)))) s s' n n' cols h =
      ground arith
  after_suspend stream stream' (completed (err e)) s s' n n' cols h = ground arith
  after_suspend stream stream' dropped s s' n n' cols h = ground arith

  -- Asking a stream for its columns loses nothing: where that succeeds, the next poll gives exactly
  -- the item, the connection and the stream that it would have given without asking, also at the end
  -- of the stream, and whether or not the stream had looked ahead before.
  pub poll_next-columns :
      (stream stream' : QueryStream t) (s s' : k.Conn) (n n' : ℕ) (cols : Option (List Column))
      → columns k alloc stream s n ≡ (completed (ok (ok cols, stream')), s', n')
      → poll_next k alloc stream' s' n' ≡ poll_next k alloc stream s n
  unfolding columns poll_next peek columns_after poll_inner suspend
  poll_next-columns stream stream' s s' n n' cols h = elim (Option-cases stream.peeked) [
    | inl e ↦ ground (
      arith,
      after_suspend stream stream' (resume k alloc stream.inner s n).0
          (resume k alloc stream.inner s n).1 s' (resume k alloc stream.inner s n).2 n' cols,
    )
    | inr (item, e) ↦ ground arith
  ]
