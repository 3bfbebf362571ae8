-- ===== src/Config/Values.antt =====
-- Which value `GetStringValueConfig` finds.
use star_server.Prelude.{
  sym, ℕ, zero, suc, ◌+◌, ◌≡◌, ◌≢◌, refl, ◌∙◌, ap, inl, inr, Bool-cases, true, false, List, [], ◌∷◌,
  ◌++◌, map, Option, none, some, if◌then◌else◌, ltb, ◌==◌, ==_iff, length, replicate, Mem, write,
  set_at, arith,
}
use star_server.Config.{
  Search, starts_with, strstr, behind_equals, value_size, put_char, unquote, ends_value, copy_value,
  skip_spaces, read_value, on_equals, on_tag, get_string_value_config,
}
use mathlib.Core.List.{append_assoc}

-- The tag does not begin within `pre`, which `rest` follows, and the string does not end there.
abbrev IsBefore : List ℕ → List ℕ → List ℕ → Type 0
IsBefore tag [] rest = Unit {0}
IsBefore tag (c ∷ pre) rest =
    (starts_with tag (c ∷ pre ++ rest) ≡ false) × (c ≢ 0) × IsBefore tag pre rest

-- No byte is one of two.
abbrev Without : ℕ → ℕ → List ℕ → Type 0
Without a b [] = Unit {0}
Without a b (c ∷ cs) = ((c == a) ≡ false) × ((c == b) ≡ false) × Without a b cs

Without-append :
    (a b : ℕ) (xs ys : List ℕ) → Without a b xs → Without a b ys → Without a b (xs ++ ys)
Without-append a b [] ys h k = k
Without-append a b (x ∷ xs) ys (p, q, h) k = (p, q, Without-append a b xs ys h k)

starts_with-append : (tag rest : List ℕ) → starts_with tag (tag ++ rest) ≡ true
unfolding starts_with
starts_with-append [] rest = refl
starts_with-append (c ∷ tag) rest = ground (arith, starts_with-append tag rest)

strstr_here : (tag rest : List ℕ) → tag ≢ [] → strstr (tag ++ rest) tag ≡ Search.at (tag ++ rest)
unfolding strstr
strstr_here [] rest h = absurd (h refl)
strstr_here (c ∷ tag) rest h = rw (starts_with-append (c ∷ tag) rest)

strstr-at :
    (pre tag rest : List ℕ)
    → tag ≢ []
    → IsBefore tag pre (tag ++ rest)
    → strstr (pre ++ (tag ++ rest)) tag ≡ Search.at (tag ++ rest)
unfolding strstr
strstr-at [] tag rest h k = strstr_here tag rest h
strstr-at (c ∷ pre) tag rest h (absent, nz, k) = elim (Bool-cases (c == 0)) [
  | inl z ↦ absurd (nz ((==_iff c 0).0 z))
  | inr z ↦ rw (absent, z) (strstr-at pre tag rest h k)
]

behind_equals-at :
    (mid rest : List ℕ)
    → rest ≢ []
    → Without b'=' 0 mid
    → behind_equals (mid ++ b'=' ∷ rest) ≡ Search.at rest
unfolding behind_equals
behind_equals-at [] [] k h = absurd (k refl)
behind_equals-at [] (d ∷ rest) k h = refl
behind_equals-at (c ∷ []) rest k (p, q, h) = rw (p, behind_equals) (behind_equals-at [] rest k h)
behind_equals-at (c ∷ c' ∷ mid) rest k (p, q, h) =
    rw (p, h.1) (behind_equals-at (c' ∷ mid) rest k h)

-- The copy of a value, up to the space or the line's end behind it.
module _ (e : ℕ) (rest : List ℕ) (t : ends_value e ≡ true) where
  abbrev copied : List ℕ → ℕ → Mem → Option Mem
  copied text i v =
      if ltb (i + length text) value_size
      then some (write v i (map unquote text ++ 0 ∷ []))
      else none

  too_long : (i n : ℕ) → ltb i value_size ≡ false → ltb (i + n) value_size ≡ false
  too_long i n h = ground arith

  put_char-fits :
      (v : Mem) (i c : ℕ) → ltb i value_size ≡ true → put_char v i c ≡ some (set_at v i c)
  unfolding put_char
  put_char-fits v i c h = rw h

  put_char-full : (v : Mem) (i c : ℕ) → ltb i value_size ≡ false → put_char v i c ≡ none
  unfolding put_char
  put_char-full v i c h = rw h

  last_char :
      (c i : ℕ) (v : Mem) → put_char (set_at v i (unquote c)) (i + 1) 0 ≡ copied (c ∷ []) i v
  unfolding put_char write
  last_char c i v = refl

  copy_value-write :
      (text : List ℕ) (c i : ℕ) (v : Mem)
      → Without b' ' b'\n' text
      → copy_value (c ∷ text ++ e ∷ rest) i v ≡ copied (c ∷ text) i v
  unfolding copy_value write
  copy_value-write [] c i v h = elim (Bool-cases (ltb i value_size)) [
    | inl fits ↦ rw (put_char-fits v i (unquote c) fits, t, copy_value) (last_char c i v)
    | inr full ↦ rw (put_char-full v i (unquote c) full, too_long i 1 full, copy_value) refl
  ]
  copy_value-write (d ∷ text) c i v (p, q, h) = elim (Bool-cases (ltb i value_size)) [
    | inl fits ↦
        let next = copy_value-write text d (i + 1) (set_at v i (unquote c)) h in
        let size : i + suc (suc (length text)) ≡ i + 1 + suc (length text) = omega arith in
        rw (put_char-fits v i (unquote c) fits, copy_value, p, q, size) next
    | inr full ↦
        rw
          (
            put_char-full v i (unquote c) full,
            copy_value,
            too_long i (suc (suc (length text))) full,
          )
          refl
  ]

  skip_spaces-value :
      (n c : ℕ) (text : List ℕ)
      → (c == b' ') ≡ false
      → skip_spaces (replicate n b' ' ++ c ∷ text) ≡ c ∷ text
  unfolding skip_spaces
  skip_spaces-value zero c text h = rw h refl
  skip_spaces-value (suc n) c text h = skip_spaces-value n c text h

  read_value-write :
      (n c : ℕ) (text : List ℕ) (v : Mem)
      → Without b' ' b'\n' (c ∷ text)
      → read_value (replicate n b' ' ++ (c ∷ text ++ e ∷ rest)) v ≡ copied (c ∷ text) 0 v
  unfolding read_value skip_spaces
  read_value-write zero c text v (p, q, h) = rw (q, p) (copy_value-write text c 0 v h)
  read_value-write (suc n) c text v (p, q, h) =
      ap (λ s. copy_value s 0 v) (skip_spaces-value n c (text ++ e ∷ rest) p)
      ∙ copy_value-write text c 0 v h

-- A value with the spaces in front of it, and what is behind it.
abbrev pub value_text : ℕ → List ℕ → ℕ → List ℕ → List ℕ
value_text n text e rest = replicate n b' ' ++ (text ++ e ∷ rest)

value_text-ne :
    (n c : ℕ) (text : List ℕ) (e : ℕ) (rest : List ℕ) → value_text n (c ∷ text) e rest ≢ []
value_text-ne zero c text e rest h = cc
value_text-ne (suc n) c text e rest h = cc

-- In a string where a tag stands at a first place, with `=` behind it after bytes that are no `=`, let a
-- value of one byte at least follow, after any number of spaces, of bytes that are neither a space
-- nor the line's end, and then one of these two. `GetStringValueConfig` returns when the value has at
-- most 31 bytes, and leaves its bytes in the value's memory, with 0 for each quote and a 0 behind them;
-- for a longer value it writes behind the array.
pub get_string_value_config-value :
    (pre tag mid : List ℕ) (n c : ℕ) (text : List ℕ) (e : ℕ) (rest : List ℕ) (v : Mem)
    → tag ≢ []
    → IsBefore tag pre (tag ++ (mid ++ b'=' ∷ value_text n (c ∷ text) e rest))
    → Without b'=' 0 (tag ++ mid)
    → Without b' ' b'\n' (c ∷ text)
    → ends_value e ≡ true
    → get_string_value_config (pre ++ (tag ++ (mid ++ b'=' ∷ value_text n (c ∷ text) e rest))) tag v
      ≡ (if ltb (length (c ∷ text)) 32
          then some (write v 0 (map unquote (c ∷ text) ++ 0 ∷ []))
          else none)
unfolding get_string_value_config
get_string_value_config-value pre tag mid n c text e rest v h k m x t =
    ap (λ s. on_tag s v) (strstr-at pre tag (mid ++ b'=' ∷ value) h k)
    ∙ ap (λ s. on_equals (behind_equals s) v) (sym (append_assoc tag mid (b'=' ∷ value)))
    ∙ ap (λ s. on_equals s v)
        (behind_equals-at (tag ++ mid) value (value_text-ne n c text e rest) m)
    ∙ read_value-write e rest t n c text v x
    ∙ ap (λ size. if ltb size 32 then some (write v 0 (map unquote (c ∷ text) ++ 0 ∷ [])) else none)
        {x = 0 + length (c ∷ text)} (omega arith)
  where
    value : List ℕ
    value = value_text n (c ∷ text) e rest

strstr-missing :
    (tag pre rest : List ℕ)
    → IsBefore tag pre (0 ∷ rest)
    → starts_with tag (0 ∷ rest) ≡ false
    → strstr (pre ++ 0 ∷ rest) tag ≡ Search.missing
unfolding strstr
strstr-missing tag [] rest h k = rw k refl
strstr-missing tag (c ∷ pre) rest (absent, nz, h) k = elim (Bool-cases (c == 0)) [
  | inl z ↦ absurd (nz ((==_iff c 0).0 z))
  | inr z ↦ rw (absent, z) (strstr-missing tag pre rest h k)
]

behind_equals-missing :
    (c : ℕ) (mid rest : List ℕ)
    → Without b'=' 0 (c ∷ mid)
    → behind_equals (c ∷ mid ++ 0 ∷ rest) ≡ Search.missing
unfolding behind_equals
behind_equals-missing c [] rest (p, q, h) = rw p refl
behind_equals-missing c (d ∷ mid) rest (p, q, h) = rw (p, h.1) (behind_equals-missing d mid rest h)

starts_with-zero :
    (c : ℕ) (tag rest : List ℕ) → (c == 0) ≡ false → starts_with (c ∷ tag) (0 ∷ rest) ≡ false
unfolding starts_with
starts_with-zero c tag rest h = rw h refl

put_char-first : (v : Mem) → put_char v 0 0 ≡ some (set_at v 0 0)
unfolding put_char
put_char-first v = refl

-- Let a tag of bytes that are neither 0 nor `=` not begin anywhere in a string: then
-- `GetStringValueConfig` makes the value empty. And where the tag stands in a string, and no `=` follows
-- it up to the string's end, the value stays that of the call before.
get_string_value_config-missing :
    (c : ℕ) (tag pre mid rest : List ℕ) (v : Mem)
    → Without b'=' 0 (c ∷ tag ++ mid)
    → IsBefore (c ∷ tag) pre (0 ∷ rest)
    → IsBefore (c ∷ tag) pre (c ∷ tag ++ (mid ++ 0 ∷ rest))
    → (get_string_value_config (pre ++ 0 ∷ rest) (c ∷ tag) v ≡ some (set_at v 0 0))
      × (get_string_value_config (pre ++ (c ∷ tag ++ (mid ++ 0 ∷ rest))) (c ∷ tag) v ≡ some v)
unfolding get_string_value_config
get_string_value_config-missing c tag pre mid rest v m h k = (
  ap (λ s. on_tag s v) (strstr-missing (c ∷ tag) pre rest h (starts_with-zero c tag rest m.1))
      ∙ put_char-first v,
  ap (λ s. on_tag s v) (strstr-at pre (c ∷ tag) (mid ++ 0 ∷ rest) (λ e. cc) k)
      ∙ ap (λ s. on_equals (behind_equals s) v) (sym (append_assoc (c ∷ tag) mid (0 ∷ rest)))
      ∙ ap (λ s. on_equals s v) (behind_equals-missing c (tag ++ mid) rest m),
)
