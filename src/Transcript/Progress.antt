-- ===== src/Transcript/Progress.antt =====
-- scripts/transcript-capture.mjs: what holds between two passes of the loop of a capture, and one pass.
use mathlib.Core.List.{append-nil, append_assoc}
use dp_beget_bridge.Base.{
  eqb, length, length-append, ok, ℕ, zero, suc, ◌+◌, ◌≤◌, ◌<◌, ◌≡◌, refl, sym, ap, subst, ◌∙◌, ◌⊎◌,
  inl, inr, Bool, true, false, none, List, [], ◌∷◌, ◌++◌, arith,
}
use dp_beget_bridge.Transcript.Segments.{Directory, Filename, output_path, lookup}
use dp_beget_bridge.Transcript.Capture.{
  Capture, create_file, file_at, open_output, ensure_output, write_at, write_portion,
}
use dp_beget_bridge.Transcript.Names.{name_at}
use dp_beget_bridge.Transcript.Files.{Holds, Holds-append, Holds_first, Holds-mark}
use dp_beget_bridge.Transcript.Inventories.{joined, Sized, segment_path-name_at}

-- There is no transcript.
pub record Blank (maximum : ℕ) (w : List ℕ) (s : Capture) : Type 0 where
  pub no_first : s.directory.first ≡ none
  pub no_parts : s.directory.parts ≡ []
  pub at_first : s.index ≡ 0
  pub nothing : s.segment_size ≡ 0
  pub is_new : s.new_segment ≡ true
  pub closed : s.opened ≡ false
  pub content : w ≡ []
  pub left : s.remaining ≡ maximum

-- The files hold `w`, and the capture stands at the end of the last one.
pub record Writing (segment_bytes maximum : ℕ) (w : List ℕ) (s : Capture) : Type 0 where
  pub before : List (List ℕ)
  pub last : List ℕ
  pub holds : Holds s.directory (before ++ last ∷ [])
  pub sized : Sized segment_bytes (before ++ last ∷ [])
  pub at_last : s.index ≡ length before
  pub filled : s.segment_size ≡ length last
  pub not_new : s.new_segment ≡ false
  pub content : joined (before ++ last ∷ []) ≡ w
  pub few : length before ≤ 1024
  pub left : s.remaining + length w ≡ maximum

-- The directory holds these bytes, in files of the right sizes; or it has no file, and there are none.
unfoldable pub Kept : ℕ → List ℕ → Directory → Type 0
Kept segment_bytes w d =
    ((d.first ≡ none) × (d.parts ≡ []) × (w ≡ []))
    ⊎ ((files : List (List ℕ)) × Holds d files
        × Sized segment_bytes files
        × (length files ≤ 1025)
        × (joined files ≡ w))

unfoldable pub State : ℕ → ℕ → List ℕ → Capture → Type 0
State segment_bytes maximum w s = Blank maximum w s ⊎ Writing segment_bytes maximum w s

joined-append :
    (before : List (List ℕ)) (last more : List ℕ)
    → joined (before ++ (last ++ more) ∷ []) ≡ joined (before ++ last ∷ []) ++ more
unfolding joined
joined-append [] last more = rw (append-nil (last ++ more), append-nil last) refl
joined-append (bytes ∷ before) last more =
    ap (λ xs. bytes ++ xs) (joined-append before last more)
    ∙ sym (append_assoc bytes (joined (before ++ last ∷ [])) more)

pub joined-create : (files : List (List ℕ)) → joined (files ++ [] ∷ []) ≡ joined files
unfolding joined
joined-create [] = refl
joined-create (bytes ∷ files) = ap (λ xs. bytes ++ xs) (joined-create files)

Sized-append :
    (segment_bytes : ℕ) (before : List (List ℕ)) (last next : List ℕ)
    → Sized segment_bytes (before ++ last ∷ [])
    → length next ≤ segment_bytes
    → Sized segment_bytes (before ++ next ∷ [])
unfolding Sized
Sized-append segment_bytes [] last next h fits = fits
Sized-append segment_bytes (bytes ∷ []) last next (e, h) fits = (e, fits)
Sized-append segment_bytes (bytes ∷ other ∷ before) last next (e, h) fits =
    (e, Sized-append segment_bytes (other ∷ before) last next h fits)

pub Sized-create :
    (segment_bytes : ℕ) (before : List (List ℕ)) (last : List ℕ)
    → Sized segment_bytes (before ++ last ∷ [])
    → length last ≡ segment_bytes
    → Sized segment_bytes ((before ++ last ∷ []) ++ [] ∷ [])
unfolding Sized
Sized-create segment_bytes [] last h full = (full, omega arith)
Sized-create segment_bytes (bytes ∷ []) last (e, h) full = (e, (full, omega arith))
Sized-create segment_bytes (bytes ∷ other ∷ before) last (e, h) full =
    (e, Sized-create segment_bytes (other ∷ before) last h full)

pub file_at-name_at : (index : ℕ) → index ≤ 1024 → file_at index ≡ ok (name_at index)
unfolding file_at name_at
file_at-name_at zero h = refl
file_at-name_at (suc n) h =
    let e : eqb (suc n) 0 ≡ false = ground arith in
    rw e (segment_path-name_at (suc n) (omega arith) h)

-- The last file becomes longer by a portion for which it has room.
pub write-Writing :
    (segment_bytes maximum : ℕ) (w portion : List ℕ) (s : Capture)
    → Writing segment_bytes maximum w s
    → length portion ≤ s.remaining
    → s.segment_size + length portion ≤ segment_bytes
    → Writing segment_bytes maximum (w ++ portion) (write_portion portion s)
unfolding write_portion
write-Writing segment_bytes maximum w portion s now room fits =
    let here : file_at s.index ≡ ok (name_at (length now.before)) =
      ap file_at now.at_last ∙ file_at-name_at (length now.before) now.few in
    let longer_last = length-append now.last portion in
    record {
      before = now.before;
      last = now.last ++ portion;
      holds =
          subst
            (λ r. Holds (write_at r portion s.directory) (now.before ++ (now.last ++ portion) ∷ []))
            (sym here)
            (Holds-append s.directory now.before now.last portion (omega (arith, now.few))
              now.holds);
      sized =
          Sized-append segment_bytes now.before now.last (now.last ++ portion) now.sized
            (omega (arith, longer_last, now.filled));
      at_last = now.at_last;
      filled = omega (arith, longer_last, now.filled);
      not_new = now.not_new;
      content = joined-append now.before now.last portion ∙ ap (λ xs. xs ++ portion) now.content;
      few = now.few;
      left = omega (arith, now.left, length-append w portion);
    }

pub Writing-Kept :
    (segment_bytes maximum : ℕ) (w : List ℕ) (s : Capture)
    → Writing segment_bytes maximum w s
    → Kept segment_bytes w s.directory
unfolding Kept
Writing-Kept segment_bytes maximum w s now = inr (
  now.before ++ now.last ∷ [],
  now.holds,
  now.sized,
  omega (arith, length-append now.before (now.last ∷ []), now.few),
  now.content,
)

pub State-Kept :
    (segment_bytes maximum : ℕ) (w : List ℕ) (s : Capture)
    → State segment_bytes maximum w s
    → Kept segment_bytes w s.directory
unfolding Kept State
State-Kept segment_bytes maximum w s (inl blank) =
    inl (blank.no_first, blank.no_parts, blank.content)
State-Kept segment_bytes maximum w s (inr now) = Writing-Kept segment_bytes maximum w s now

pub Kept-mark :
    (segment_bytes : ℕ) (w : List ℕ) (d : Directory)
    → Kept segment_bytes w d
    → Kept segment_bytes w (record d { stop_marker = true })
unfolding Kept
Kept-mark segment_bytes w d (inl empty) = inl empty
Kept-mark segment_bytes w d (inr (files, holds, sized, few, content)) =
    inr (files, Holds-mark d files holds, sized, few, content)

-- A capture that can open its output and has then room in the last file.
pub record Ready (segment_bytes maximum : ℕ) (w : List ℕ) (s : Capture) : Type 0 where
  pub kept : Kept segment_bytes w s.directory
  pub room : s.segment_size < segment_bytes
  pub after : Capture
  pub opens : ensure_output s ≡ ok after
  pub now : Writing segment_bytes maximum w after
  pub same_size : after.segment_size ≡ s.segment_size
  pub same_left : after.remaining ≡ s.remaining

pub open_output_new :
    (name : Filename) (d : Directory)
    → lookup name d ≡ none
    → open_output true name d ≡ ok (create_file name d)
unfolding open_output
open_output_new name d h = rw h refl

pub ensure_output_lem :
    (s : Capture) (is_new : Bool) (name : Filename) (d : Directory)
    → s.opened ≡ false
    → s.new_segment ≡ is_new
    → file_at s.index ≡ ok name
    → open_output is_new name s.directory ≡ ok d
    → ensure_output s ≡ ok (record s { directory = d; opened = true; new_segment = false })
unfolding ensure_output
ensure_output_lem s is_new name d closed e here h = ground (arith, closed, e, here, h)

pub Blank-Ready :
    (segment_bytes maximum : ℕ) (w : List ℕ) (s : Capture)
    → 1 ≤ segment_bytes
    → Blank maximum w s
    → Ready segment_bytes maximum w s
unfolding Kept ensure_output file_at open_output lookup Sized joined
Blank-Ready segment_bytes maximum w s pos blank = record {
  kept = inl (blank.no_first, blank.no_parts, blank.content);
  room = omega (arith, blank.nothing);
  after = record s {
    directory = create_file output_path s.directory;
    opened = true;
    new_segment = false;
  };
  opens =
      ensure_output_lem s true output_path (create_file output_path s.directory) blank.closed
        blank.is_new (ap file_at blank.at_first)
        (open_output_new output_path s.directory blank.no_first);
  now = record {
    before = [];
    last = [];
    holds = Holds_first s.directory blank.no_first blank.no_parts;
    sized = omega arith;
    at_last = blank.at_first;
    filled = blank.nothing;
    not_new = refl;
    content = sym blank.content;
    few = omega arith;
    left = omega (arith, blank.left, ap length blank.content);
  };
  same_size = refl;
  same_left = refl;
}
