-- ===== src/Container/Gap.antt =====
-- Bytes written over a part of a vector's block, between the text that stays before them and the text
-- that is already behind them.
use m_fast.Common.{
  ℕ, ◌+◌, ◌≤◌, ◌≡◌, refl, ap, ◌∙◌, some, List, ◌++◌, length, length-append, take, drop, arith,
}
use m_fast.Container.Array.{Array, array_length, write_content}
use m_fast.Container.Blocks.{IsValid, take_behind, write_content_within, length-write}
use m_fast.Container.Assign.{Holds, array_length_of}

-- The block of `s` has `front`, a gap of `gap` bytes, and `tail`.
pub record HasGap (front : List ℕ) (gap : ℕ) (tail : List ℕ) (s : Array) : Type 0 where
  pub valid : IsValid s
  pub len_is : s.len ≡ length front + gap + length tail + 1
  pub front_is : take (length front) s.content ≡ front
  pub tail_is : take (length tail) (drop (length front + gap) s.content) ≡ tail

pub write_gap-Holds :
    (front bytes tail : List ℕ) (s : Array)
    → HasGap front (length bytes) tail s
    → (s' : Array) × (write_content (length front) bytes s ≡ some s')
      × Holds (front ++ (bytes ++ tail)) s'
unfolding m_fast.Container.Array.contents
write_gap-Holds front bytes tail s g =
    let k = length front in
    let n = length bytes in
    let size = array_length_of (k + n + length tail) s g.len_is in
    let fits : k + n ≤ length s.content = omega (arith, g.valid.0, size) in
    let rest = drop (k + n) s.content in
    let block = take k s.content ++ (bytes ++ rest) in
    let s' : Array = record s { content = block } in
    let same : length block ≡ length s.content = length-write k bytes s.content fits in
    (
      s',
      write_content_within k bytes s fits,
      record {
        valid = (omega (arith, same, g.valid.0), ground (arith, g.valid, same));
        text_is =
            ap (λ j. take j block) size
            ∙ ap (λ l. take (k + n + length tail) (l ++ (bytes ++ rest))) g.front_is
            ∙ take_behind _ (n + length tail) front (bytes ++ rest) (omega arith) (omega arith)
            ∙ ap (λ l. front ++ l)
                (take_behind _ (length tail) bytes rest (omega arith) refl
                  ∙ ap (λ l. bytes ++ l) g.tail_is);
        len_is =
            g.len_is ∙ omega (arith, length-append front (bytes ++ tail), length-append bytes tail);
      },
    )
