-- ===== src/Packet/Messages.antt =====
-- `_processMessagePacket` on a packet: the messages that it finds.
use mathlib.Core.List.{append_assoc}
use mathlib.Core.Path.{subst}
use star_server.Prelude.{
  ℕ, suc, ◌+◌, ◌≤◌, ◌<◌, ◌≡◌, refl, sym, ap, ap₂, ◌∙◌, inl, inr, List, [], ◌∷◌, ◌++◌, map, Option,
  none, some, ◌==◌, ==_iff, true, false, Bool-cases, length, Mem, read, set_at, arith,
}
use star_server.Prelude.Writes.{read-add, set_at_self, set_at_ne}
use star_server.Client.{client_default_max_block}
use star_server.Packet.{Cursor, next_message, extend, add_block, parse_word, parse_words}
use star_server.Packet.Queue.{Block}
use star_server.Packet.Layout.{word}
use star_server.Packet.Blocks.{
  contents, messages_from, Follows, Short, contents-agree, word_tag, word_size, add_block_lem,
}

abbrev begun : Cursor → Cursor
begun s = record s {
  count = s.count + 1;
  msg = set_at s.msg s.count s.start;
  msg_size = set_at s.msg_size s.count 0;
}

module _ (s : Cursor) (t : ℕ) (bs : List ℕ) (h : length bs < 2048) where
  decoded : parse_word s (word (t, bs)) ≡ add_block (next_message s t) t (length bs)
  unfolding parse_word
  decoded =
      ap₂ (λ tag size. add_block (next_message s tag) tag size) (word_tag t bs h) (word_size t bs h)

  parse_word_on :
      (k : ℕ)
      → s.count ≡ suc k
      → k < client_default_max_block
      → s.cont ≡ t
      → parse_word s (word (t, bs)) ≡ some (extend s k t (length bs))
  unfolding next_message
  parse_word_on k e l same =
      decoded
      ∙ ap (λ s'. add_block s' t (length bs)) (rw ((==_iff s.cont t).1 same))
      ∙ add_block_lem s k t (length bs) e l

  parse_word_new :
      s.count < client_default_max_block
      → (s.cont == t) ≡ false
      → parse_word s (word (t, bs)) ≡ some (extend (begun s) s.count t (length bs))
  unfolding next_message
  parse_word_new l other =
      decoded
      ∙ ap (λ s'. add_block s' t (length bs)) {y = begun s} (rw other)
      ∙ add_block_lem (begun s) s.count t (length bs) (omega arith) l

abbrev Found : Mem → Option Cursor → List (List ℕ) → Type 0
Found m r ms = (s : Cursor) × (r ≡ some s) × (contents m s.msg s.msg_size s.count ≡ ms)

Found-along :
    (m : Mem) (r r' : Option Cursor) (ms ms' : List (List ℕ))
    → r' ≡ r
    → ms ≡ ms'
    → Found m r ms
    → Found m r' ms'
Found-along m r r' ms ms' e q (s, p, c) = (s, e ∙ p, c ∙ q)

parse_words-cons :
    (s s' : Cursor) (w : ℕ) (ws : List ℕ)
    → parse_word s w ≡ some s'
    → parse_words s (w ∷ ws) ≡ parse_words s' ws
unfolding parse_words
parse_words-cons s s' w ws e = ap (λ o. elim o [ none ↦ none | some t ↦ parse_words t ws ]) e

pub messages_from-on :
    (t t' : ℕ) (cur bs : List ℕ) (rest : List Block)
    → (t == t') ≡ true
    → messages_from t cur ((t', bs) ∷ rest) ≡ messages_from t' (cur ++ bs) rest
unfolding messages_from
messages_from-on t t' cur bs rest e = rw e

pub messages_from-new :
    (t t' : ℕ) (cur bs : List ℕ) (rest : List Block)
    → (t == t') ≡ false
    → messages_from t cur ((t', bs) ∷ rest) ≡ cur ∷ messages_from t' bs rest
unfolding messages_from
messages_from-new t t' cur bs rest e = rw e

-- What is known of the cursor while message k is open: the messages before it, and its bytes.
record IsOpen (m : Mem) (s : Cursor) (k : ℕ) (done : List (List ℕ)) (cur : List ℕ) : Type 0 where
  counted : s.count ≡ suc k
  joins : s.start ≡ s.msg k + s.msg_size k
  earlier : contents m s.msg s.msg_size k ≡ done
  now : read m (s.msg k) (s.msg_size k) ≡ cur

extend-IsOpen :
    (m : Mem) (s : Cursor) (k t : ℕ) (bs : List ℕ) {done : List (List ℕ)} {cur : List ℕ}
    → IsOpen m s k done cur
    → read m s.start (length bs) ≡ bs
    → IsOpen m (extend s k t (length bs)) k done (cur ++ bs)
extend-IsOpen m s k t bs o f = record {
  counted = o.counted;
  joins = omega (arith, o.joins, set_at_self s.msg_size k (s.msg_size k + length bs));
  earlier =
      contents-agree m s.msg s.msg _ s.msg_size k
        (λ j l. (refl, set_at_ne s.msg_size k j _ (omega arith)))
      ∙ o.earlier;
  now =
      ap (read m (s.msg k)) (set_at_self s.msg_size k (s.msg_size k + length bs))
      ∙ read-add m (s.msg k) (s.msg_size k) (length bs)
      ∙ ap₂ ◌++◌ o.now (ap (λ a. read m a (length bs)) (sym o.joins) ∙ f);
}

begin-IsOpen :
    (m : Mem) (s : Cursor) (t : ℕ) (bs : List ℕ) {done : List (List ℕ)}
    → contents m s.msg s.msg_size s.count ≡ done
    → read m s.start (length bs) ≡ bs
    → IsOpen m (extend (begun s) s.count t (length bs)) s.count done bs
begin-IsOpen m s t bs d f = record {
  counted = omega arith;
  joins = omega (arith, start_of, size_of);
  earlier =
      contents-agree m _ s.msg _ s.msg_size s.count (λ j l. (
        set_at_ne s.msg s.count j _ (omega arith),
        set_at_ne (set_at s.msg_size s.count 0) s.count j _ (omega arith)
            ∙ set_at_ne s.msg_size s.count j 0 (omega arith),
      ))
      ∙ d;
  now = ap₂ (read m) start_of size_of ∙ f;
}
  where
    start_of : set_at s.msg s.count s.start s.count ≡ s.start
    start_of = set_at_self s.msg s.count s.start

    size_of : (extend (begun s) s.count t (length bs)).msg_size s.count ≡ length bs
    size_of =
        set_at_self (set_at s.msg_size s.count 0) s.count _
        ∙ ap (λ z. z + length bs) (set_at_self s.msg_size s.count 0)
        ∙ omega arith

messages_from-pos : (t : ℕ) (cur : List ℕ) (tb : List Block) → 0 < length (messages_from t cur tb)
unfolding messages_from
messages_from-pos t cur [] = omega arith
messages_from-pos t cur ((t', bs) ∷ rest) = ground (arith, messages_from-pos t' (cur ++ bs) rest)

-- The rounds of the loop, from a message that is open on.
parse_words-Found :
    (m : Mem) (s : Cursor) (k : ℕ) (done : List (List ℕ)) (cur : List ℕ) (tb : List Block)
    → IsOpen m s k done cur
    → Follows m s.start tb
    → Short tb
    → k + length (messages_from s.cont cur tb) ≤ client_default_max_block
    → Found m (parse_words s (map word tb)) (done ++ messages_from s.cont cur tb)
unfolding parse_words messages_from
parse_words-Found m s k done cur [] o f sh l =
    (s, refl, ap (contents m s.msg s.msg_size) o.counted ∙ ap₂ (λ d b. d ++ b ∷ []) o.earlier o.now)
parse_words-Found m s k done cur ((t, bs) ∷ rest) o f sh l = elim (Bool-cases (s.cont == t)) [
  | inl same ↦
      let eq = messages_from-on s.cont t cur bs rest same in
      Found-along m _ _ _ _
        (parse_words-cons s (extend s k t (length bs)) (word (t, bs)) (map word rest) (
          parse_word_on s t bs sh.0 k o.counted
            (omega (arith, l, messages_from-pos s.cont cur ((t, bs) ∷ rest)))
            ((==_iff s.cont t).0 same)))
        (ap (◌++◌ done) (sym eq))
        (parse_words-Found m (extend s k t (length bs)) k done (cur ++ bs) rest
          (extend-IsOpen m s k t bs o f.0) f.1 sh.1 (omega (arith, l, ap length eq)))
  | inr other ↦
      let eq = messages_from-new s.cont t cur bs rest other in
      Found-along m _ _ _ _
        (parse_words-cons s (extend (begun s) s.count t (length bs)) (word (t, bs)) (map word rest)
          (parse_word_new s t bs sh.0
            (omega (arith, l, ap length eq, o.counted, messages_from-pos t bs rest)) other))
        (append_assoc done (cur ∷ []) (messages_from t bs rest) ∙ ap (◌++◌ done) (sym eq))
        (parse_words-Found m (extend (begun s) s.count t (length bs)) (suc k) (done ++ cur ∷ []) bs
          rest
          (subst (λ j. IsOpen m (extend (begun s) s.count t (length bs)) j (done ++ cur ∷ []) bs)
            o.counted
            (begin-IsOpen m s t bs
              (ap (contents m s.msg s.msg_size) o.counted
                ∙ ap₂ (λ d b. d ++ b ∷ []) o.earlier o.now)
              f.0))
          f.1 sh.1 (omega (arith, l, ap length eq)))
]

-- The messages of a whole packet. The first block begins one, whatever its tag.
unfoldable pub messages_of : List Block → List (List ℕ)
messages_of [] = []
messages_of ((t, bs) ∷ rest) = messages_from t bs rest

-- The tag of the first block is not 1, which is the tag that the loop starts from.
abbrev pub StartsAtZero : List Block → Type 0
StartsAtZero [] = Unit {0}
StartsAtZero ((t, bs) ∷ rest) = t ≡ 0

-- The loop from its start.
pub parse_words-start :
    (m : Mem) (a : ℕ) (msg size : ℕ → ℕ) (tb : List Block)
    → StartsAtZero tb
    → Follows m a tb
    → Short tb
    → length (messages_of tb) ≤ client_default_max_block
    → Found m
        (parse_words
          (record { cont = 1; count = 0; start = a; msg = msg; msg_size = size })
          (map word tb))
        (messages_of tb)
unfolding parse_words messages_of
parse_words-start m a msg size [] z f sh l =
    (record { cont = 1; count = 0; start = a; msg = msg; msg_size = size }, refl, refl)
parse_words-start m a msg size ((t, bs) ∷ rest) z f sh l =
    Found-along m _ _ _ _
      (parse_words-cons s (extend (begun s) 0 t (length bs)) (word (t, bs)) (map word rest)
        (parse_word_new s t bs sh.0 (omega arith) (ground arith)))
      refl
      (parse_words-Found m (extend (begun s) 0 t (length bs)) 0 [] bs rest
        (begin-IsOpen m s t bs refl f.0) f.1 sh.1 (omega (arith, l)))
  where
    s : Cursor
    s = record { cont = 1; count = 0; start = a; msg = msg; msg_size = size }
