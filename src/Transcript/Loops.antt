-- ===== src/Transcript/Loops.antt =====
-- scripts/transcript-capture.mjs: the two loops of a capture, over a chunk and over the chunks.
use mathlib.Core.List.{append-nil, append_assoc}
use dp_beget_bridge.Base.{
  length, ℕ, zero, suc, ◌≤◌, ◌<◌, ◌≡◌, refl, sym, ap, subst, ◌∙◌, Option, List, [], ◌∷◌, ◌++◌,
  arith,
}
use dp_beget_bridge.Transcript.Segments.{Directory}
use dp_beget_bridge.Transcript.Capture.{
  Space, Limits, Capture, Pass, going, halted, failed, out_of_fuel, capture_pass, follow,
  capture_chunk, capture_chunks,
}
use dp_beget_bridge.Transcript.Inventories.{joined}
use dp_beget_bridge.Transcript.Progress.{Kept, State}
use dp_beget_bridge.Transcript.Passes.{Put, Stopped, Failed, Fine, Shortens, capture_pass-Fine}

-- A pass that has a whole chunk behind it.
unfoldable pub Finished : Pass → Type 0
Finished (going rest s) = rest ≡ []
Finished (halted stop s) = Unit
Finished (failed e s) = Unit
Finished (out_of_fuel s) = Unit

Put-later :
    (segment_bytes : ℕ) (w portion input rest : List ℕ) (d : Directory) (Known : ℕ → Type 0)
    → input ≡ portion ++ rest
    → Put segment_bytes (w ++ portion) rest d Known
    → Put segment_bytes w input d Known
Put-later segment_bytes w portion input rest d Known e put = record {
  portion = portion ++ put.portion;
  rest = put.rest;
  split = e ∙ ap (λ xs. portion ++ xs) put.split ∙ sym (append_assoc portion put.portion put.rest);
  kept = subst (λ v. Kept segment_bytes v d) (append_assoc w portion put.portion) put.kept;
  known = subst (λ v. Known (length v)) (append_assoc w portion put.portion) put.known;
}

-- What ends the loop ends it, whatever input comes after.
Put-more :
    (segment_bytes : ℕ) (w input more total : List ℕ) (d : Directory) (Known : ℕ → Type 0)
    → total ≡ input ++ more
    → Put segment_bytes w input d Known
    → Put segment_bytes w total d Known
Put-more segment_bytes w input more total d Known e put = record {
  portion = put.portion;
  rest = put.rest ++ more;
  split = e ∙ ap (λ xs. xs ++ more) put.split ∙ append_assoc put.portion put.rest more;
  kept = put.kept;
  known = put.known;
}

Fine-later :
    (limits : Limits) (w portion input rest : List ℕ) (p : Pass)
    → input ≡ portion ++ rest
    → Fine limits (w ++ portion) rest p
    → Fine limits w input p
unfolding Fine
Fine-later limits w portion input rest (going after s) e (more, e', state, left) = (
  portion ++ more,
  e ∙ ap (λ xs. portion ++ xs) e' ∙ sym (append_assoc portion more after),
  subst (λ v. State limits.segment_bytes limits.maximum v s) (append_assoc w portion more) state,
  left,
)
Fine-later limits w portion input rest (halted stop s) e put =
    Put-later limits.segment_bytes w portion input rest s.directory (Stopped limits s stop) e put
Fine-later limits w portion input rest (failed x s) e put =
    Put-later limits.segment_bytes w portion input rest s.directory (Failed limits x) e put
Fine-later limits w portion input rest (out_of_fuel s) e h = h

stays :
    (limits : Limits) (w : List ℕ) (s : Capture)
    → State limits.segment_bytes limits.maximum w s
    → 1 ≤ s.remaining
    → Fine limits w [] (going [] s)
unfolding Fine
stays limits w s state left = (
  [],
  refl,
  subst (λ v. State limits.segment_bytes limits.maximum v s) (sym (append-nil w)) state,
  left,
)

-- What follows a pass, for the input before it and after it.
follow-Fine :
    (limits : Limits) (w input more total : List ℕ) (p : Pass) (next : List ℕ → Capture → Pass)
    → total ≡ input ++ more
    → Fine limits w input p
    → ((rest : List ℕ) (s : Capture) (portion : List ℕ)
        → p ≡ going rest s
        → input ≡ portion ++ rest
        → State limits.segment_bytes limits.maximum (w ++ portion) s
        → 1 ≤ s.remaining
        → Fine limits w total (next rest s))
    → Fine limits w total (follow p next)
unfolding follow Fine
follow-Fine limits w input more total (going rest s) next e (portion, split, state, left) go =
    go rest s portion refl split state left
follow-Fine limits w input more total (halted stop s) next e put go =
    Put-more limits.segment_bytes w input more total s.directory (Stopped limits s stop) e put
follow-Fine limits w input more total (failed x s) next e put go =
    Put-more limits.segment_bytes w input more total s.directory (Failed limits x) e put
follow-Fine limits w input more total (out_of_fuel s) next e h go = h

follow-Finished :
    (p : Pass) (next : List ℕ → Capture → Pass)
    → ((rest : List ℕ) (s : Capture) → p ≡ going rest s → Finished (next rest s))
    → Finished (follow p next)
unfolding follow Finished
follow-Finished (going rest s) next go = go rest s refl
follow-Finished (halted stop s) next go = tt
follow-Finished (failed x s) next go = tt
follow-Finished (out_of_fuel s) next go = tt

shortened :
    (chunk rest : List ℕ) (p : Pass) (s : Capture)
    → Shortens chunk p
    → p ≡ going rest s
    → length rest < length chunk
unfolding Shortens
shortened chunk rest p s h e = subst (Shortens chunk) e h

going_on :
    (limits : Limits) (w chunk : List ℕ) (p : Pass) (rest : List ℕ) (s : Capture)
    → Fine limits w chunk p
    → p ≡ going rest s
    → Fine limits w chunk (going rest s)
going_on limits w chunk p rest s h e = subst (Fine limits w chunk) e h

finished : (p : Pass) (rest : List ℕ) (s : Capture) → Finished p → p ≡ going rest s → rest ≡ []
unfolding Finished
finished p rest s h e = subst Finished e h

-- As much fuel as the chunk has bytes is enough.
pub capture_chunk-Fine :
    (limits : Limits) (space : ℕ → Option Space) (fuel : ℕ) (w chunk : List ℕ) (s : Capture)
    → 1 ≤ limits.segment_bytes
    → length chunk ≤ fuel
    → State limits.segment_bytes limits.maximum w s
    → 1 ≤ s.remaining
    → Fine limits w chunk (capture_chunk limits space fuel chunk s)
      × Finished (capture_chunk limits space fuel chunk s)
unfolding capture_chunk Finished Fine
capture_chunk-Fine limits space fuel w [] s pos enough state left =
    (stays limits w s state left, refl)
capture_chunk-Fine limits space zero w (byte ∷ bytes) s pos enough state left = absurd (omega arith)
capture_chunk-Fine limits space (suc fuel) w (byte ∷ bytes) s pos enough state left =
    let chunk = byte ∷ bytes in
    let p = capture_pass limits space chunk s in
    let next : List ℕ → Capture → Pass = λ rest s'. capture_chunk limits space fuel rest s' in
    let (fine, shorter) = capture_pass-Fine limits space w chunk s pos state left (omega arith) in
    (
      follow-Fine limits w chunk [] chunk p next (sym (append-nil chunk)) fine
          (λ rest s' portion e split state' left'.
            Fine-later limits w portion chunk rest (capture_chunk limits space fuel rest s') split (
              (capture_chunk-Fine limits space fuel (w ++ portion) rest s' pos
                (omega (arith, shortened chunk rest p s' shorter e)) state' left').0)),
      follow-Finished p next (λ rest s' e.
          let (portion, split, state', left') = going_on limits w chunk p rest s' fine e in
          (capture_chunk-Fine limits space fuel (w ++ portion) rest s' pos
            (omega (arith, shortened chunk rest p s' shorter e)) state' left').1),
    )

-- What the whole input comes to.
pub capture_chunks-Fine :
    (limits : Limits) (space : ℕ → Option Space) (w : List ℕ) (chunks : List (List ℕ)) (s : Capture)
    → 1 ≤ limits.segment_bytes
    → State limits.segment_bytes limits.maximum w s
    → 1 ≤ s.remaining
    → Fine limits w (joined chunks) (capture_chunks limits space chunks s)
      × Finished (capture_chunks limits space chunks s)
unfolding capture_chunks Finished joined Fine
capture_chunks-Fine limits space w [] s pos state left = (stays limits w s state left, refl)
capture_chunks-Fine limits space w (chunk ∷ chunks) s pos state left =
    let p = capture_chunk limits space (length chunk) chunk s in
    let next : List ℕ → Capture → Pass = λ rest s'. capture_chunks limits space chunks s' in
    let (fine, done) =
      capture_chunk-Fine limits space (length chunk) w chunk s pos (omega arith) state left in
    (
      follow-Fine limits w chunk (joined chunks) (chunk ++ joined chunks) p next refl fine
          (λ rest s' portion e split state' left'.
            let whole_chunk : chunk ≡ portion =
              split ∙ ap (λ xs. portion ++ xs) (finished p rest s' done e) ∙ append-nil portion in
            Fine-later limits w portion (chunk ++ joined chunks) (joined chunks)
              (capture_chunks limits space chunks s') (ap (λ xs. xs ++ joined chunks) whole_chunk)
              ((capture_chunks-Fine limits space (w ++ portion) chunks s' pos state' left').0)),
      follow-Finished p next (λ rest s' e.
          let (portion, split, state', left') = going_on limits w chunk p rest s' fine e in
          (capture_chunks-Fine limits space (w ++ portion) chunks s' pos state' left').1),
    )
