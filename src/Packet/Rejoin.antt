-- ===== src/Packet/Rejoin.antt =====
-- A queue that messages make: with the alternating bit, the blocks are joined to the same messages.
use mathlib.Core.List.{append-nil, append_assoc}
use star_server.Prelude.{
  ℕ, zero, suc, ◌+◌, ◌-◌, ◌≤◌, ◌<◌, ◌≡◌, refl, sym, ap, ◌∙◌, List, [], ◌∷◌, ◌++◌, map, ==_iff,
  length, take, drop, take-append-drop, length-drop, arith,
}
use star_server.Client.{client_default_buffer}
use star_server.Packet.Queue.{Block, chunks, cut}
use star_server.Packet.Layout.{tagged, next_tag}
use star_server.Packet.Blocks.{messages_from}
use star_server.Packet.Messages.{messages_from-on, messages_from-new, messages_of}

flatten : List (List ℕ) → List ℕ
flatten [] = []
flatten (bs ∷ rest) = bs ++ flatten rest

flatten-chunks : (f : ℕ) (bs : List ℕ) → length bs ≤ f → flatten (chunks f bs) ≡ bs
unfolding flatten chunks
flatten-chunks zero [] h = refl
flatten-chunks zero (b ∷ bs) h = absurd (omega arith)
flatten-chunks (suc f) [] h = refl
flatten-chunks (suc f) (b ∷ bs) h =
    ap (◌++◌ (take client_default_buffer (b ∷ bs))) (
      flatten-chunks f (drop client_default_buffer (b ∷ bs))
        (omega (arith, length-drop client_default_buffer (b ∷ bs))))
    ∙ take-append-drop client_default_buffer (b ∷ bs)

-- The queue that messages make, numbered from p on.
unfoldable pub queue_of : ℕ → List (List ℕ) → List Block
queue_of p [] = []
queue_of p (bs ∷ rest) = map (λ b. (p, b)) (cut bs) ++ queue_of (p + 1) rest

abbrev pub AllNonempty : List (List ℕ) → Type 0
AllNonempty [] = Unit {0}
AllNonempty (bs ∷ rest) = (0 < length bs) × AllNonempty rest

same_tag : (p t : ℕ) → next_tag p p t ≡ t
unfolding next_tag
same_tag p t = ground arith

other_tag : (p t : ℕ) → next_tag p (p + 1) t ≡ 1 - t
unfolding next_tag
other_tag p t = ground arith

tagged-cons :
    (cur cont p t : ℕ) (bs : List ℕ) (rest : List Block)
    → next_tag cur p cont ≡ t
    → tagged cur cont ((p, bs) ∷ rest) ≡ (t, bs) ∷ tagged p t rest
unfolding tagged
tagged-cons cur cont p t bs rest e = ap (λ n. (n, bs) ∷ tagged p n rest) e

-- The blocks of one message share their tag, and join.
joined :
    (p t : ℕ) (cur : List ℕ) (bss : List (List ℕ)) (rest : List Block)
    → messages_from t cur (tagged p t (map (λ b. (p, b)) bss ++ rest))
      ≡ messages_from t (cur ++ flatten bss) (tagged p t rest)
unfolding flatten
joined p t cur [] rest = ap (λ c. messages_from t c (tagged p t rest)) (sym (append-nil cur))
joined p t cur (bs ∷ bss) rest =
    ap (messages_from t cur) (tagged-cons p t p t bs _ (same_tag p t))
    ∙ messages_from-on t t cur bs _ ((==_iff t t).1 refl)
    ∙ joined p t (cur ++ bs) bss rest
    ∙ ap (λ c. messages_from t c (tagged p t rest)) (append_assoc cur bs (flatten bss))

-- After message p is read, with the tag t, come the others.
separated :
    (p t : ℕ) (cur : List ℕ) (ms : List (List ℕ))
    → t < 2
    → AllNonempty ms
    → messages_from t cur (tagged p t (queue_of (p + 1) ms)) ≡ cur ∷ ms
unfolding queue_of cut flatten messages_from chunks
separated p t cur [] h e = unfold tagged messages_from in refl
separated p t cur ([] ∷ ms) h e = absurd (omega arith)
separated p t cur ((x ∷ xs) ∷ ms) h e =
    ap (messages_from t cur)
      (tagged-cons p t (p + 1) (1 - t) (take client_default_buffer (x ∷ xs)) _ (other_tag p t))
    ∙ messages_from-new t (1 - t) cur _ _ (ground arith)
    ∙ ap (◌∷◌ cur) (
        joined (p + 1) (1 - t) (take client_default_buffer (x ∷ xs))
          (chunks (length xs) (drop client_default_buffer (x ∷ xs))) (queue_of (p + 1 + 1) ms)
        ∙ ap (λ c. messages_from (1 - t) c (tagged (p + 1) (1 - t) (queue_of (p + 1 + 1) ms)))
            (flatten-chunks (suc (length xs)) (x ∷ xs) (omega arith))
        ∙ separated (p + 1) (1 - t) (x ∷ xs) ms (omega arith) e.1)

-- The packet of messages, read back.
pub messages_of-queue_of :
    (ms : List (List ℕ)) → AllNonempty ms → messages_of (tagged 0 0 (queue_of 0 ms)) ≡ ms
unfolding queue_of cut tagged messages_of chunks flatten
messages_of-queue_of [] e = unfold tagged messages_of in refl
messages_of-queue_of ([] ∷ ms) e = absurd (omega arith)
messages_of-queue_of ((x ∷ xs) ∷ ms) e =
    ap messages_of (tagged-cons 0 0 0 0 (take client_default_buffer (x ∷ xs)) _ (same_tag 0 0))
    ∙ (unfold messages_of in
        joined 0 0 (take client_default_buffer (x ∷ xs))
          (chunks (length xs) (drop client_default_buffer (x ∷ xs))) (queue_of 1 ms))
    ∙ ap (λ c. messages_from 0 c (tagged 0 0 (queue_of 1 ms)))
        (flatten-chunks (suc (length xs)) (x ∷ xs) (omega arith))
    ∙ separated 0 0 (x ∷ xs) ms (omega arith) e.1
