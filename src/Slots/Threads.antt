-- ===== src/Slots/Threads.antt =====
-- A slot has one thread at most, and the login count counts the threads.
use star_server.Prelude.{clash, ℕ, ◌^◌, ◌<◌, ◌≡◌, ◌∙◌, sym, false}
use star_server.Prelude.Counts.{count_true-idle}
use star_server.Slots.{Slots, Step}
use star_server.Slots.Served.{IsServed}

-- Any number of steps, the last one first.
pub data Reaches (s : Slots) : Slots → Type 0 where
  begins : Reaches s s
  goes_on : (t u : Slots) → Reaches s t → Step t u → Reaches s u

-- A server that starts: no client is online, no thread runs.
pub record IsStart (s : Slots) : Type 0 where
  pub offline : (i : ℕ) → i < s.max_connection → (s.clients i).online ≡ false
  pub idle : (i : ℕ) → s.running i ≡ false
  pub no_login : s.login_count ≡ 0
  pub bounded : s.max_connection < 2 ^ 31

pub start-server-IsServed : (s : Slots) → IsStart s → IsServed s
start-server-IsServed s h = record {
  served = λ i l on. absurd (clash (s.clients i).online on (h.offline i l));
  begun = λ i l runs off. absurd (clash (s.running i) runs (h.idle i));
  counted = h.no_login ∙ sym (count_true-idle s.running s.max_connection h.idle);
  bounded = h.bounded;
}
