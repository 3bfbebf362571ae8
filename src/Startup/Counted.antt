-- ===== src/Startup/Counted.antt =====
-- How much memory a start takes, and how much of it is in the server's count.
use star_server.Prelude.{ℕ, ◌+◌, ◌*◌, ◌%◌, ◌^◌, refl, ◌&&◌, u32, arith}
use star_server.Config.Settings.{Settings}
use star_server.Database.{stdb_connect}
use star_server.Startup.Memory.{to_size, rounds32, Sizes}
use star_server.Startup.State.{State, Host}
use star_server.Startup.Init.{
  allocate_clients, allocate_arrays, allocate_database, cleared, no_connection, library,
}
use star_server.Startup.Grown.{AllGranted, Grows}
use star_server.Startup.Growth.{
  skip_then, taking_then, allocate_then, require_then, count_then, as-Grows, allocate_each-Grows,
  allocate_buffers-Grows, count-Grows, require-Grows, done_then, clients-Grows, db-Grows,
}

-- What the clients take, and what is counted for them.
abbrev pub clients_taken : Sizes → Settings → ℕ
clients_taken z t =
    to_size t.max_connection * z.client % 2 ^ 64
    + (rounds32 t.max_connection * (to_size t.data_buffer * 2)
        + to_size t.max_room * z.room % 2 ^ 64)

abbrev pub clients_counted : Sizes → Settings → ℕ
clients_counted z t =
    to_size t.max_connection * z.client
    + (to_size t.max_connection * to_size t.data_buffer * 2 + to_size t.max_connection * z.client)

pub allocate_clients-Grows :
    (w : ℕ) (z : Sizes) (s : State)
    → AllGranted s
    → Grows w (clients_taken z s.settings) (clients_counted z s.settings) s (allocate_clients w z s)
unfolding allocate_clients
allocate_clients-Grows w z s all = done_then w s.settings _ _ s _ (
    allocate_then w (n * z.client % 2 ^ 64) _ _ s _ all (λ given s1 all1.
      require_then w given _ _ s1 _ all1 (λ s2 all2.
        skip_then w _ _ s2 _ _ all2 (clients-Grows w (λ i. cleared (s2.clients i)) s2) (λ _ s3 all3.
          count_then w (n * z.client) _ _ s3 _ all3 (λ s4 all4.
            taking_then w buffers _ _ s4 _ _ all4
              (allocate_buffers-Grows w (rounds32 s.settings.max_connection) size s4 all4)
              (λ _ s5 all5. count_then w (n * size * 2) _ _ s5 _ all5 (λ s6 all6.
                as-Grows w (rooms + 0) (n * z.client) rooms (n * z.client) s6 _ (omega arith) refl (
                  allocate_then w rooms 0 (n * z.client) s6 _ all6
                    (λ _ s7 all7. count-Grows w (n * z.client) s7)))))))))
  where
    n : ℕ
    n = to_size s.settings.max_connection

    size : ℕ
    size = to_size s.settings.data_buffer

    buffers : ℕ
    buffers = rounds32 s.settings.max_connection * (size * 2)

    rooms : ℕ
    rooms = to_size s.settings.max_room * z.room % 2 ^ 64

abbrev arrays_taken : Sizes → ℕ → ℕ
arrays_taken z n =
    z.mysql * n % 2 ^ 64
    + (z.pointer * n % 2 ^ 64
        + (z.bool * n % 2 ^ 64
            + (z.pointer * n % 2 ^ 64
                + (z.pointer * n % 2 ^ 64 + (z.int * n % 2 ^ 64 + (z.int * n % 2 ^ 64 + 0))))))

allocate_arrays-Grows :
    (w n : ℕ) (z : Sizes) (s : State)
    → AllGranted s
    → Grows w (arrays_taken z n) 0 s (allocate_arrays n z s)
unfolding allocate_arrays
allocate_arrays-Grows w n z s all =
    allocate_then w (z.mysql * n % 2 ^ 64) _ 0 s _ all (λ mysql s1 all1.
      allocate_then w (z.pointer * n % 2 ^ 64) _ 0 s1 _ all1 (λ p_mysql s2 all2.
        allocate_then w (z.bool * n % 2 ^ 64) _ 0 s2 _ all2 (λ lock s3 all3.
          allocate_then w (z.pointer * n % 2 ^ 64) _ 0 s3 _ all3 (λ res s4 all4.
            allocate_then w (z.pointer * n % 2 ^ 64) _ 0 s4 _ all4 (λ row s5 all5.
              allocate_then w (z.int * n % 2 ^ 64) _ 0 s5 _ all5 (λ num_row s6 all6.
                allocate_then w (z.int * n % 2 ^ 64) 0 0 s6 _ all6 (λ num_fields s7 all7.
                  require-Grows w (mysql && p_mysql && lock && res && row && num_row && num_fields)
                    s7)))))))

abbrev pub database_taken : Sizes → Settings → ℕ
database_taken z t =
    to_size t.db_max_connect * z.sql_buffer % 2 ^ 64
    + (rounds32 t.db_max_connect * to_size t.sql_buffer + arrays_taken z (to_size t.db_max_connect))

abbrev pub database_counted : Sizes → Settings → ℕ
database_counted z t =
    to_size (u32 (t.db_max_connect * t.sql_buffer))
    + to_size t.db_max_connect * z.sql_buffer
    + (z.mysql * to_size t.db_max_connect
        + z.pointer * to_size t.db_max_connect
        + z.bool * to_size t.db_max_connect)

pub allocate_database-Grows :
    (w : ℕ) (z : Sizes) (host : Host) (s : State)
    → AllGranted s
    → Grows w
        (database_taken z s.settings)
        (database_counted z s.settings)
        s
        (allocate_database w z host s)
unfolding allocate_database
allocate_database-Grows w z host s all = done_then w s.settings _ _ s _ (
    allocate_then w (n * z.sql_buffer % 2 ^ 64) _ _ s _ all (λ given s1 all1.
      require_then w given _ _ s1 _ all1 (λ s2 all2.
        taking_then w (rounds32 s.settings.db_max_connect * size) _ _ s2 _ _ all2
          (allocate_each-Grows w (rounds32 s.settings.db_max_connect) size s2 all2)
          (λ _ s3 all3. count_then w commands _ _ s3 _ all3 (λ s4 all4.
            as-Grows w (arrays_taken z n + 0) _ (arrays_taken z n) _ s4 _ (omega arith) refl (
              taking_then w (arrays_taken z n) 0 arrays s4 _ _ all4
                (allocate_arrays-Grows w n z s4 all4)
                (λ _ s5 all5. as-Grows w 0 (arrays + 0) 0 arrays s5 _ refl (omega arith) (
                  count_then w arrays 0 0 s5 _ all5 (λ s6 all6.
                    db-Grows w (stdb_connect (library host) (no_connection s6.db)).1 s6)))))))))
  where
    n : ℕ
    n = to_size s.settings.db_max_connect

    size : ℕ
    size = to_size s.settings.sql_buffer

    commands : ℕ
    commands = to_size (u32 (s.settings.db_max_connect * s.settings.sql_buffer)) + n * z.sql_buffer

    arrays : ℕ
    arrays = z.mysql * n + z.pointer * n + z.bool * n
