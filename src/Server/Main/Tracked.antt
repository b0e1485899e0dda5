-- ===== src/Server/Main/Tracked.antt =====
-- Where the clients are: every connected client is listened to, or queued, or served, or in a result
-- on its way to the main thread, and in one of these only.
use sol_project.Prelude.{
  ℕ, ◌+◌, ◌^◌, ◌≡◌, ◌≤◌, ◌<◌, sym, ap, ◌∙◌, subst⁻¹, true, false, eqb, arith, inl, inr, Bool-cases,
  nat_eq,
}
use sol_project.Hash.Chain.{to_nat}
use sol_project.Hash.HashTable
use sol_project.Hash.HashTable.Laws.{IsTable, insert-IsTable, contains-insert}
use sol_project.Hash.HashTable.Count.{nelem-insert}
use sol_project.Server.Main.{Fixed, connect}
use sol_project.Server.Main.World.{World, times, reported, is_client}

-- a client's places apart from the set
abbrev pub held : World → ℕ → ℕ
held w c = times c w.loop.request_queue + times c w.serving + reported c w.reports

pub record IsTracked (k : Fixed) (w : World) : Type 0 where
  pub table : IsTable w.loop.conn_client_table
  pub clients :
      (c : ℕ)
      → is_client k c ≡ true
      → to_nat (w.loop.set c) + held w c ≡ to_nat (HashTable.contains w.loop.conn_client_table c)
  pub strangers :
      (c : ℕ)
      → is_client k c ≡ false
      → (HashTable.contains w.loop.conn_client_table c ≡ false) × (held w c ≡ 0)
  pub ears : w.loop.set k.fd_listen ≡ true
  pub top : (i : ℕ) → w.loop.set i ≡ true → i ≤ w.loop.fd_max
  pub conn : w.loop.server.curr_state.conn ≡ w.loop.conn_client_table.nelem
  pub fits : w.loop.conn_client_table.nelem < 2 ^ 32
  pub peak : w.loop.server.curr_state.conn ≤ w.loop.server.curr_state.max_conn

module _ (k : Fixed) (w : World) (i : IsTracked k w) where
  listen_no_client : is_client k k.fd_listen ≡ false
  listen_no_client = ground arith

  pub connected :
      (fd : ℕ)
      → is_client k fd ≡ true
      → HashTable.contains w.loop.conn_client_table fd ≡ false
      → w.loop.conn_client_table.nelem + 1 < 2 ^ 32
      → IsTracked k (record w { loop = connect w.loop fd })
  unfolding connect
  connected fd client new fits = record {
    table = insert-IsTable w.loop.conn_client_table fd i.table new;
    clients = λ c h. elim (Bool-cases (eqb c fd)) [
      | inl e ↦
          let z : c ≡ fd = ground arith in
          ground (
            arith,
            contains-insert w.loop.conn_client_table fd c i.table new,
            i.clients c h,
            ap (HashTable.contains w.loop.conn_client_table) z,
          )
      | inr e ↦
          ground (arith, contains-insert w.loop.conn_client_table fd c i.table new, i.clients c h)
    ];
    strangers = λ c h. (
      ground (
        arith,
        contains-insert w.loop.conn_client_table fd c i.table new,
        i.strangers c h,
        ap (is_client k) {x = c} {y = fd},
      ),
      (i.strangers c h).1,
    );
    ears = ground (arith, i.ears);
    top = λ j h. ground (arith, i.top j);
    fits = omega (arith, fits, nelem-insert w.loop.conn_client_table fd i.table new);
    conn = omega (arith, i.conn, fits, nelem-insert w.loop.conn_client_table fd i.table new);
    peak = ground arith;
  }

  -- Some places change, and the table does not.
  pub moved :
      (w' : World)
      → w'.loop.conn_client_table ≡ w.loop.conn_client_table
      → w'.loop.server.curr_state.conn ≡ w.loop.server.curr_state.conn
      → w'.loop.server.curr_state.max_conn ≡ w.loop.server.curr_state.max_conn
      → ((c : ℕ)
          → is_client k c ≡ true
          → to_nat (w'.loop.set c) + held w' c ≡ to_nat (w.loop.set c) + held w c)
      → ((c : ℕ) → is_client k c ≡ false → (w'.loop.set c ≡ w.loop.set c) × (held w' c ≡ held w c))
      → ((j : ℕ) → w'.loop.set j ≡ true → j ≤ w'.loop.fd_max)
      → IsTracked k w'
  moved w' same conn peak places strange top = record {
    table = subst⁻¹ IsTable same i.table;
    clients =
        λ c h. places c h ∙ i.clients c h ∙ ap (λ t. to_nat (HashTable.contains t c)) (sym same);
    strangers = λ c h. (
      ap (λ t. HashTable.contains t c) same ∙ (i.strangers c h).0,
      (strange c h).1 ∙ (i.strangers c h).1,
    );
    ears = (strange k.fd_listen listen_no_client).0 ∙ i.ears;
    top = top;
    fits = subst⁻¹ (λ (t : HashTable.HashTable). t.nelem < 2 ^ 32) same i.fits;
    conn = conn ∙ i.conn ∙ ap (λ (t : HashTable.HashTable). t.nelem) (sym same);
    peak = omega (arith, conn, peak, i.peak);
  }
