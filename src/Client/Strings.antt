-- ===== src/Client/Strings.antt =====
-- What stands in the client's arrays when its loop begins.
use memcached4chaos.Base.{
  ℕ, zero, suc, ◌+◌, ◌<◌, ◌≡◌, ◌≢◌, ◌⊎◌, refl, ap, sym, ◌∙◌, arith, inl, inr, List, [], ◌∷◌, length,
  some,
}
use memcached4chaos.System.{Ptr, update, update_self, update_ne}
use memcached4chaos.Hash.Mem.{Bytes, skip}
use memcached4chaos.Messages.Numbers.{Apart}
use memcached4chaos.Server.{strlen}
use memcached4chaos.Client.{Buffers, strcpy, new_buffers, giorgio, mastrota}
use memcached4chaos.Client.Sent.{HasKey, strlen_lem}

-- no null byte
abbrev AreChars : List ℕ → Type 0
AreChars [] = Unit
AreChars (c ∷ text) = (c ≢ 0) × AreChars text

strcpy-outside :
    (text : List ℕ) (to : Ptr) (mem : Bytes) (a : Ptr)
    → (a < to) ⊎ (to + length text < a)
    → strcpy to text mem a ≡ mem a
unfolding strcpy
strcpy-outside [] to mem a away =
    update_ne mem to a 0 (elim away [ inl h ↦ omega arith | inr h ↦ omega arith ])
strcpy-outside (c ∷ text) to mem a away =
    let away' : (a < to + 1) ⊎ (to + 1 + length text < a) = elim away [
      | inl h ↦ inl (omega arith)
      | inr h ↦ inr (omega arith)
    ] in
    let other : a ≢ to = elim away [ inl h ↦ omega arith | inr h ↦ omega arith ] in
    strcpy-outside text (to + 1) (update mem to c) a away' ∙ update_ne mem to a c other

strcpy-end : (text : List ℕ) (to : Ptr) (mem : Bytes) → strcpy to text mem (to + length text) ≡ 0
unfolding strcpy
strcpy-end [] to mem =
    let here : to + 0 ≡ to = omega arith in ap (update mem to 0) here ∙ update_self mem to 0
strcpy-end (c ∷ text) to mem =
    let here : to + suc (length text) ≡ to + 1 + length text = omega arith in
    ap (strcpy (to + 1) text (update mem to c)) here ∙ strcpy-end text (to + 1) (update mem to c)

strcpy-chars :
    (text : List ℕ) (to : Ptr) (mem : Bytes) (i : ℕ)
    → AreChars text
    → i < length text
    → strcpy to text mem (to + i) ≢ 0
unfolding strcpy
strcpy-chars [] to mem i chars h e = absurd (omega arith)
strcpy-chars (c ∷ text) to mem zero (char, chars) h e =
    let here : to ≡ to + 0 = omega arith in
    char (
      sym (
        strcpy-outside text (to + 1) (update mem to c) to (inl (omega arith))
        ∙ update_self mem to c)
      ∙ ap (strcpy (to + 1) text (update mem to c)) here
      ∙ e)
strcpy-chars (c ∷ text) to mem (suc i) (char, chars) h e =
    let here : to + 1 + i ≡ to + suc i = omega arith in
    strcpy-chars text (to + 1) (update mem to c) i chars (omega arith)
      (ap (strcpy (to + 1) text (update mem to c)) here ∙ e)

strlen-strcpy :
    (text : List ℕ) (to : Ptr) (mem : Bytes) (fuel : ℕ)
    → AreChars text
    → length text < fuel
    → strlen fuel (skip to (strcpy to text mem)) ≡ some (length text)
strlen-strcpy text to mem fuel chars enough =
    strlen_lem (length text) fuel (skip to (strcpy to text mem)) enough
      (λ i h. strcpy-chars text to mem i chars h) (strcpy-end text to mem)

giorgio-AreChars : AreChars giorgio
giorgio-AreChars = (
  λ e. absurd (omega arith),
  (
    λ e. absurd (omega arith),
    (
      λ e. absurd (omega arith),
      (
        λ e. absurd (omega arith),
        (λ e. absurd (omega arith), (λ e. absurd (omega arith), (λ e. absurd (omega arith), tt))),
      ),
    ),
  ),
)

mastrota-AreChars : AreChars mastrota
mastrota-AreChars = (
  λ e. absurd (omega arith),
  (
    λ e. absurd (omega arith),
    (
      λ e. absurd (omega arith),
      (
        λ e. absurd (omega arith),
        (
          λ e. absurd (omega arith),
          (λ e. absurd (omega arith), (λ e. absurd (omega arith), (λ e. absurd (omega arith), tt))),
        ),
      ),
    ),
  ),
)

-- Where the three arrays do not overlap, the client's key is ready for its requests: it has the
-- 7 characters that were copied first, which the copy of the value leaves alone.
new_buffers-HasKey :
    (fuel : ℕ) (key value buffer : Ptr) (mem : Bytes)
    → 8 < fuel
    → Apart key 251 value 1024
    → Apart key 251 buffer 1024
    → Apart value 1024 buffer 1024
    → (c : Buffers) × (new_buffers fuel key value buffer mem ≡ some c)
      × HasKey c
      × (c.keylen ≡ 7)
      × (c.valuelen ≡ 8)
unfolding new_buffers
new_buffers-HasKey fuel key value buffer mem enough apart apart' apart'' =
    let keyed = strcpy key giorgio mem in
    let filled = strcpy value mastrota keyed in
    let c : Buffers = record {
      key = key;
      value = value;
      buffer = buffer;
      mem = filled;
      keylen = 7;
      valuelen = 8;
    } in
    let keylen = strlen-strcpy giorgio key mem fuel giorgio-AreChars (omega arith) in
    let valuelen = strlen-strcpy mastrota value keyed fuel mastrota-AreChars enough in
    let kept : (i : ℕ) → i < 7 → filled (key + i) ≡ keyed (key + i) = λ i h.
      strcpy-outside mastrota value keyed (key + i)
        (elim apart [ inl h' ↦ inl (omega arith) | inr h' ↦ inr (omega arith) ]) in
    (
      c,
      rw (new_buffers, keylen, valuelen) refl,
      record {
        some_key = omega arith;
        short = omega arith;
        chars = λ i h e. strcpy-chars giorgio key mem i giorgio-AreChars h (sym (kept i h) ∙ e);
        key_apart = elim apart' [ inl h ↦ inl (omega arith) | inr h ↦ inr (omega arith) ];
        value_apart = elim apart'' [ inl h ↦ inl (omega arith) | inr h ↦ inr (omega arith) ];
      },
      refl,
      refl,
    )
