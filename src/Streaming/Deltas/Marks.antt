-- ===== src/Streaming/Deltas/Marks.antt =====
-- What the chunks of a stream leave in the progress of its attempt: whether text is out, whose it
-- is, and a receipt no more settled than before.
use text.Mathlib.Text.{◌==◌ as str_eq}
use llmbroker.Base.{
  String, ◌≡◌, ◌≢◌, refl, ◌∙◌, true, false, List, [], ◌∷◌, arith, if_ind, Bool-cases, inl, inr,
}
use llmbroker.Router.{Attempt}
use llmbroker.Streaming.Deltas.{
  Progress, Chunk, Transport, unopened, responds, Drained, take_chunk, take_chunks, progress_opened,
  emit, stream_deltas,
}

take_chunk-started : (c : Chunk) (p : Progress) → p.started ≡ true → (take_chunk c p).started ≡ true
unfolding take_chunk progress_opened
take_chunk-started (delta, usage) p h = ground arith

take_chunk-opens :
    (c : Chunk) (p : Progress) → str_eq c.0 "" ≡ false → (take_chunk c p).started ≡ true
unfolding take_chunk progress_opened
take_chunk-opens (delta, usage) p h = ground arith

take_chunks-started :
    (cs : List Chunk) (p : Progress) → p.started ≡ true → (take_chunks cs p).1.started ≡ true
unfolding take_chunks
take_chunks-started [] p h = h
take_chunks-started (c ∷ cs) p h =
    take_chunks-started cs (take_chunk c p) (take_chunk-started c p h)

emit-blank : (d : String) (ds : List String) → str_eq d "" ≡ true → emit d ds ≡ ds
emit-blank d ds h = rw h refl

-- Text out, attempt started.
take_chunks-text :
    (cs : List Chunk) (p : Progress)
    → (take_chunks cs p).0 ≢ []
    → (take_chunks cs p).1.started ≡ true
unfolding take_chunks
take_chunks-text [] p h = absurd (h refl)
take_chunks-text (c ∷ cs) p h = elim (Bool-cases (str_eq c.0 "")) [
  | inl blank ↦ take_chunks-text cs (take_chunk c p) λ e. h (emit-blank c.0 _ blank ∙ e)
  | inr text ↦ take_chunks-started cs (take_chunk c p) (take_chunk-opens c p text)
]

take_chunk-settled :
    (c : Chunk) (p : Progress) → (take_chunk c p).receipt.settled ≡ p.receipt.settled
unfolding take_chunk progress_opened
take_chunk-settled (delta, usage) p = ground arith

take_chunks-settled :
    (cs : List Chunk) (p : Progress) → (take_chunks cs p).1.receipt.settled ≡ p.receipt.settled
unfolding take_chunks
take_chunks-settled [] p = refl
take_chunks-settled (c ∷ cs) p = take_chunks-settled cs (take_chunk c p) ∙ take_chunk-settled c p

-- Which attempt a progress belongs to.
abbrev pub Names : Attempt → Progress → Type 0
Names a p = (p.call_id ≡ a.call_id) × (p.llm_name ≡ a.config.name)

take_chunk-Names : (a : Attempt) (c : Chunk) (p : Progress) → Names a p → Names a (take_chunk c p)
unfolding take_chunk progress_opened
take_chunk-Names a (delta, usage) p h =
    if_ind (Names a) (str_eq delta "") h (if_ind (Names a) p.started h h)

take_chunks-Names :
    (a : Attempt) (cs : List Chunk) (p : Progress) → Names a p → Names a (take_chunks cs p).1
unfolding take_chunks
take_chunks-Names a [] p h = h
take_chunks-Names a (c ∷ cs) p h =
    take_chunks-Names a cs (take_chunk c p) (take_chunk-Names a c p h)

pub stream_deltas-Names :
    (a : Attempt) (t : Transport) (p : Progress) → Names a p → Names a (stream_deltas t p).progress
unfolding stream_deltas
stream_deltas-Names a (unopened how) p h = h
stream_deltas-Names a (responds r cs how) p h =
    if_ind (λ (d : Drained). Names a d.progress) _ h (take_chunks-Names a cs p h)

pub stream_deltas-settled :
    (t : Transport) (p : Progress)
    → (stream_deltas t p).progress.receipt.settled ≡ p.receipt.settled
unfolding stream_deltas
stream_deltas-settled (unopened how) p = refl
stream_deltas-settled (responds r cs how) p =
    if_ind (λ (d : Drained). d.progress.receipt.settled ≡ p.receipt.settled) _ refl
      (take_chunks-settled cs p)

pub stream_deltas-text :
    (t : Transport) (p : Progress)
    → (stream_deltas t p).deltas ≢ []
    → (stream_deltas t p).progress.started ≡ true
unfolding stream_deltas
stream_deltas-text (unopened how) p = λ h. absurd (h refl)
stream_deltas-text (responds r cs how) p =
    if_ind (λ (d : Drained). d.deltas ≢ [] → d.progress.started ≡ true) _ (λ h. absurd (h refl))
      (take_chunks-text cs p)
