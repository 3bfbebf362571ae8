-- ===== src/Startup/Limits.antt =====
-- `CheckLimite`
use native.Mathlib.Nat.{mod-eq_of_lt, div-le_self, le-div_iff_mul-le}
use star_server.Prelude.{
  ap, ap₂, ◌∙◌, ℕ, ◌+◌, ◌*◌, ◌/◌, ◌^◌, ◌≤◌, ◌<◌, ◌≡◌, ◌↔◌, Bool, true, false, if◌then◌else◌, ltb,
  u32, arith,
}
use star_server.Startup.Memory.{to_size}

-- What `getrlimit` gives for the stack and for open files.
pub record Rlimits : Type 0 where
  pub stack : ℕ
  pub files : ℕ

-- `<` of two `int`s.
abbrev int_ltb : ℕ → ℕ → Bool
int_ltb a b = ltb (u32 (a + 2 ^ 31)) (u32 (b + 2 ^ 31))

-- How many stacks the memory holds, as an `int`.
abbrev limite_login : ℕ → ℕ → ℕ
limite_login server_mem_g stack = u32 (to_size (u32 (server_mem_g * 1024 * 1024)) / (stack / 1024))

-- `CheckLimite`, on `s_nServerMEMG` and `s_nMaxConnection`.
unfoldable pub check_limite : Rlimits → ℕ → ℕ → Bool
check_limite r server_mem_g max_connection =
    if ltb r.stack (512 * 1024)
    then false
    else if int_ltb (limite_login server_mem_g r.stack) max_connection
    then false
    else if ltb r.files (to_size (u32 (max_connection * 3)))
    then false
    else true

to_size_lem : (v : ℕ) → v < 2 ^ 31 → to_size v ≡ v
to_size_lem v h = ground arith

int_ltb_lem : (a b : ℕ) → a < 2 ^ 31 → b < 2 ^ 31 → int_ltb a b ≡ ltb a b
int_ltb_lem a b h k = ap₂ ltb left right ∙ ground arith
  where
    left : u32 (a + 2 ^ 31) ≡ a + 2 ^ 31
    left = omega arith

    right : u32 (b + 2 ^ 31) ≡ b + 2 ^ 31
    right = omega arith

limite_login_lem :
    (g stack : ℕ) → g < 2048 → limite_login g stack ≡ g * (1024 * 1024) / (stack / 1024)
limite_login_lem g stack h = ap (λ m. u32 (m / (stack / 1024))) memory ∙ mod-eq_of_lt small
  where
    memory : to_size (u32 (g * 1024 * 1024)) ≡ g * (1024 * 1024)
    memory =
        ap to_size {x = u32 (g * 1024 * 1024)} {y = g * (1024 * 1024)} (omega arith)
        ∙ to_size_lem (g * (1024 * 1024)) (omega arith)

    small : g * (1024 * 1024) / (stack / 1024) < 2 ^ 32
    small = omega (arith, div-le_self (g * (1024 * 1024)) (stack / 1024))

-- `CheckLimite` is true exactly when a stack has 512 KB at least, the memory of g GB holds a stack for
-- each of n connections, and three files may be open for each. The memory is less than 2048 GB and 3 n
-- is less than 2^31, so that no `int` overflows.
pub check_limite_iff :
    (r : Rlimits) (g n : ℕ)
    → g < 2048
    → n * 3 < 2 ^ 31
    → (check_limite r g n ≡ true)
      ↔ ((512 * 1024 ≤ r.stack) × (n * (r.stack / 1024) ≤ g * (1024 * 1024)) × (n * 3 ≤ r.files))
unfolding check_limite
check_limite_iff r g n small few =
    rw (limite_login_lem g r.stack small, int_ltb_lem logins n bounded (omega arith), files_lem)
      (λ e. ground (arith, e, fits), λ p. ground (arith, p, fits))
  where
    logins : ℕ
    logins = g * (1024 * 1024) / (r.stack / 1024)

    bounded : logins < 2 ^ 31
    bounded = omega (arith, div-le_self (g * (1024 * 1024)) (r.stack / 1024))

    files_lem : to_size (u32 (n * 3)) ≡ n * 3
    files_lem = ap to_size {x = u32 (n * 3)} {y = n * 3} (omega arith) ∙ to_size_lem (n * 3) few

    fits : 0 < r.stack / 1024 → (n ≤ logins) ↔ (n * (r.stack / 1024) ≤ g * (1024 * 1024))
    fits h = le-div_iff_mul-le h
