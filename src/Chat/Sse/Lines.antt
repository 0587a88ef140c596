-- ===== src/Chat/Sse/Lines.antt =====
-- What a stream carries: its lines up to the one that ends it.
use llmbroker.Base.{
  String, ◌≡◌, refl, ap, ◌∙◌, Bool, true, false, ◌||◌, List, [], ◌∷◌, ◌++◌, Dict, any,
  if◌then◌else◌,
}
use llmbroker.Models.{Value}
use llmbroker.Chat.Sse.{Reading, Line, ends, skipped, carries, line_of, put_before, sse_chunks}

module _ (rd : Reading) where
  abbrev pub is_end : Line rd → Bool
  is_end ends = true
  is_end _ = false

  one_line :
      (line : Line rd) (rest later : List (Dict Value)) (b : Bool)
      → put_before rd line (if b then rest else rest ++ later)
        ≡ (if is_end line || b then put_before rd line rest else put_before rd line rest ++ later)
  unfolding put_before
  one_line ends rest later true = refl
  one_line ends rest later false = refl
  one_line skipped rest later true = refl
  one_line skipped rest later false = refl
  one_line (carries chunk) rest later true = refl
  one_line (carries chunk) rest later false = refl

  abbrev pub has_end : List String → Bool
  has_end lines = any (λ raw. is_end (line_of rd raw)) lines

  -- Lines that arrive later add their chunks after those of the lines before them, and nothing that
  -- follows the end of the stream is read.
  pub sse_chunks-append :
      (lines later : List String)
      → sse_chunks rd (lines ++ later) ≡ (
          if has_end lines then sse_chunks rd lines else sse_chunks rd lines ++ sse_chunks rd later)
  unfolding sse_chunks
  sse_chunks-append [] later = refl
  sse_chunks-append (raw ∷ lines) later =
      ap (put_before rd (line_of rd raw)) (sse_chunks-append lines later)
      ∙ one_line (line_of rd raw) (sse_chunks rd lines) (sse_chunks rd later) (has_end lines)
