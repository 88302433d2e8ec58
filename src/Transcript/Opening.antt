-- ===== src/Transcript/Opening.antt =====
-- scripts/transcript-capture.mjs: a capture can open its output in every state that the loop comes to,
-- be it the next file, or the last one.
use dp_beget_bridge.Base.{
  Bool-cases, length, length-append, ok, bind_result, ℕ, suc, ◌+◌, ◌≤◌, ◌<◌, ◌≡◌, refl, sym, ap,
  subst, ◌∙◌, inl, inr, true, false, some, List, [], ◌∷◌, ◌++◌, arith,
}
use dp_beget_bridge.Transcript.Segments.{
  FileKind, regular, symbolic_link, other_kind, Directory, Filename, is_regular, open_node,
}
use dp_beget_bridge.Transcript.Capture.{Capture, create_file, file_at, open_output, ensure_output}
use dp_beget_bridge.Transcript.Names.{name_at}
use dp_beget_bridge.Transcript.Files.{File, Files, Holds-create}
use dp_beget_bridge.Transcript.Fresh.{Holds_fresh}
use dp_beget_bridge.Transcript.Progress.{
  Writing, joined-create, Sized-create, file_at-name_at, Writing-Kept, Ready, open_output_new,
  ensure_output_lem,
}

abbrev pub rolled : Capture → Capture
rolled s = record s { opened = false; index = s.index + 1; segment_size = 0; new_segment = true }

pub Full-Ready :
    (segment_bytes maximum : ℕ) (w : List ℕ) (s : Capture)
    → 1 ≤ segment_bytes
    → Writing segment_bytes maximum w s
    → s.segment_size ≡ segment_bytes
    → s.index + 1 ≤ 1024
    → Ready segment_bytes maximum w (rolled s)
Full-Ready segment_bytes maximum w s pos now full low =
    let files = now.before ++ now.last ∷ [] in
    let count : length files ≡ s.index + 1 =
      omega (arith, now.at_last, length-append now.before (now.last ∷ [])) in
    let fresh = Holds_fresh s.directory files (omega arith) (omega arith) now.holds in
    record {
      kept = Writing-Kept segment_bytes maximum w s now;
      room = pos;
      after = record s {
        directory = create_file (name_at (length files)) s.directory;
        opened = true;
        index = s.index + 1;
        segment_size = 0;
        new_segment = false;
      };
      opens =
          ensure_output_lem (rolled s) true (name_at (length files))
            (create_file (name_at (length files)) s.directory) refl refl
            (ap file_at (sym count) ∙ file_at-name_at (length files) (omega arith))
            (open_output_new (name_at (length files)) s.directory fresh);
      now = record {
        before = files;
        last = [];
        holds = Holds-create s.directory files (omega arith) fresh now.holds;
        sized =
            Sized-create segment_bytes now.before now.last now.sized (omega (arith, now.filled));
        at_last = sym count;
        filled = refl;
        not_new = refl;
        content = joined-create files ∙ now.content;
        few = omega arith;
        left = now.left;
      };
      same_size = refl;
      same_left = refl;
    }

last-File :
    (d : Directory) (index : ℕ) (before : List (List ℕ)) (last : List ℕ)
    → Files d index (before ++ last ∷ [])
    → File d (name_at (index + length before)) last
unfolding Files
last-File d index [] last (file, tt) =
    let e : index ≡ index + 0 = omega arith in subst (λ i. File d (name_at i) last) e file
last-File d index (bytes ∷ before) last (file, rest) =
    let e : suc index + length before ≡ index + suc (length before) = omega arith in
    subst (λ i. File d (name_at i) last) e (last-File d (suc index) before last rest)

open_plain :
    (kind : FileKind) (links : ℕ) (bytes : List ℕ)
    → is_regular kind ≡ true
    → open_node (some (record { kind = kind; links = links; bytes = bytes }))
      ≡ ok (record { kind = kind; links = links; bytes = bytes })
open_plain regular links bytes h = refl
open_plain symbolic_link links bytes h = absurd (cc h)
open_plain other_kind links bytes h = absurd (cc h)

open_output_old :
    (name : Filename) (d : Directory) (bytes : List ℕ)
    → File d name bytes
    → open_output false name d ≡ ok d
unfolding open_output
open_output_old name d bytes file =
    let kind : is_regular file.node.kind ≡ true = ground (arith, file.plain) in
    ap (λ r. bind_result r (λ node. ok d))
      (ap open_node file.found ∙ open_plain file.node.kind file.node.links file.node.bytes kind)

ensure_opened : (s : Capture) → s.opened ≡ true → ensure_output s ≡ ok s
unfolding ensure_output
ensure_opened s h = ground arith

pub Open-Ready :
    (segment_bytes maximum : ℕ) (w : List ℕ) (s : Capture)
    → Writing segment_bytes maximum w s
    → s.segment_size < segment_bytes
    → Ready segment_bytes maximum w s
unfolding ensure_output
Open-Ready segment_bytes maximum w s now room =
    let same : 0 + length now.before ≡ length now.before = omega arith in
    let file =
      subst (λ i. File s.directory (name_at i) now.last) same
        (last-File s.directory 0 now.before now.last now.holds.all_files) in
    elim (Bool-cases s.opened) [
      | inl e ↦ record {
        kept = Writing-Kept segment_bytes maximum w s now;
        room = room;
        after = s;
        opens = ensure_opened s e;
        now = now;
        same_size = refl;
        same_left = refl;
      }
      | inr e ↦ record {
        kept = Writing-Kept segment_bytes maximum w s now;
        room = room;
        after = record s { directory = s.directory; opened = true; new_segment = false };
        opens =
            ensure_output_lem s false (name_at (length now.before)) s.directory e now.not_new
              (ap file_at now.at_last ∙ file_at-name_at (length now.before) now.few)
              (open_output_old (name_at (length now.before)) s.directory now.last file);
        now = record {
          before = now.before;
          last = now.last;
          holds = now.holds;
          sized = now.sized;
          at_last = now.at_last;
          filled = now.filled;
          not_new = refl;
          content = now.content;
          few = now.few;
          left = now.left;
        };
        same_size = refl;
        same_left = refl;
      }
    ]
