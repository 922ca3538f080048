-- ===== src/Testing/Paths.antt =====
-- `PurePosixPath` and `_safe_path`: the parts of a path, and when it stays inside its directory.
use agent_coordination.Prelude.{
  All, All-at, All-of, Bool, Bool-cases, List, Text, [], ap, arith, codes, drop, false, inl, inr,
  if◌then◌else◌, is_empty, keep_if, keep_if-Member, length, nat_beq, not, refl, reverse, strip, suc,
  sym, true, ◌&&◌, ◌++◌, ◌||◌, ◌∙◌, ◌∷◌, ◌≡◌,
}
use mathlib.Core.List.{reverse_aux}
use agent_coordination.Selection.Similarity.{text_in}
use agent_coordination.Domain.Keys.{text_beq}

-- The segments between the slashes. `run` is the segment so far, reversed.
unfoldable pub segments : Text → Text → List Text
segments run [] = reverse run ∷ []
segments run (c ∷ s) =
    let longer = segments (c ∷ run) s in
    let ended = segments [] s in if nat_beq c b'/' then reverse run ∷ ended else longer

-- A segment that `PurePosixPath` keeps.
unfoldable pub is_part : Text → Bool
unfolding text_beq
is_part segment = not (is_empty segment) && not (text_beq segment (codes "."))

unfoldable pub is_absolute : Text → Bool
is_absolute [] = false
is_absolute (c ∷ s) = nat_beq c b'/'

-- The parts after the root.
unfoldable pub relative_parts : Text → List Text
unfolding segments is_part keep_if
relative_parts path = keep_if is_part (segments [] path)

-- The root of an absolute path: exactly two slashes at its start are kept.
unfoldable pub root_of : Text → Text
unfolding is_absolute
root_of [] = codes "/"
root_of (c ∷ s) = if is_absolute s && not (is_absolute (drop 1 s)) then codes "//" else codes "/"

-- `PurePosixPath(path).parts`. A root is a part of its own.
unfoldable pub parts_of : Text → List Text
unfolding relative_parts is_absolute root_of
parts_of path = if is_absolute path then root_of path ∷ relative_parts path else relative_parts path

-- `PurePosixPath(path).name`
abbrev pub last_or_empty : List Text → Text
last_or_empty [] = []
last_or_empty (x ∷ []) = x
last_or_empty (x ∷ y ∷ rest) = last_or_empty (y ∷ rest)

unfoldable pub name_of : Text → Text
unfolding relative_parts
name_of path = last_or_empty (relative_parts path)

-- `prefix` begins the text; `text in other`; `other.endswith(text)`.
unfoldable pub starts_with : Text → Text → Bool
starts_with [] s = true
starts_with (p ∷ ps) [] = false
starts_with (p ∷ ps) (c ∷ s) = nat_beq p c && starts_with ps s

unfoldable pub contains_text : Text → Text → Bool
unfolding starts_with
contains_text t [] = is_empty t
contains_text t (c ∷ s) = starts_with t (c ∷ s) || contains_text t s

unfoldable pub ends_with : Text → Text → Bool
unfolding starts_with
ends_with suffix s = starts_with (reverse suffix) (reverse s)

-- `_safe_path`
unfoldable pub safe_path : Text → Bool
unfolding strip is_absolute parts_of text_in text_beq
safe_path path =
    not (is_empty (strip path))
    && (not (is_absolute path)
        && (not (text_in (codes "..") (parts_of path))
            && not (text_beq path (codes ".") || text_beq path (codes "./"))))

-- Where the parts of a path lead from a directory, of which the last part comes first: `..` goes up,
-- and a root leaves the directory, wherever that is.
unfoldable pub walk : List Text → List Text → List Text
unfolding text_beq is_absolute
walk directory [] = directory
walk directory (p ∷ rest) =
    if is_absolute p
    then walk (p ∷ []) rest
    else if text_beq (codes "..") p
    then walk (drop 1 directory) rest
    else walk (p ∷ directory) rest

append_one : (p : Text) (xs ys : List Text) → (xs ++ p ∷ []) ++ ys ≡ xs ++ p ∷ ys
append_one p [] ys = refl
append_one p (x ∷ xs) ys = ap (λ zs. x ∷ zs) (append_one p xs ys)

length-snoc : (p : Text) (xs : List Text) → length (xs ++ p ∷ []) ≡ suc (length xs)
length-snoc p [] = refl
length-snoc p (x ∷ xs) = ap suc (length-snoc p xs)

-- No character is a slash.
abbrev NoSlash : Text → Type 0
NoSlash = All (λ c. nat_beq c b'/' ≡ false)

reverse_aux-NoSlash : (t acc : Text) → NoSlash t → NoSlash acc → NoSlash (reverse_aux t acc)
reverse_aux-NoSlash [] acc h k = k
reverse_aux-NoSlash (c ∷ t) acc h k = reverse_aux-NoSlash t (c ∷ acc) h.1 (h.0, k)

reverse-NoSlash : (t : Text) → NoSlash t → NoSlash (reverse t)
reverse-NoSlash t h = reverse_aux-NoSlash t [] h tt

no_root : (t : Text) → NoSlash t → is_absolute t ≡ false
unfolding is_absolute
no_root [] h = refl
no_root (c ∷ t) h = h.0

segments_lem : (run s : Text) → NoSlash run → All (λ p. is_absolute p ≡ false) (segments run s)
unfolding segments
segments_lem run [] h = (no_root (reverse run) (reverse-NoSlash run h), tt)
segments_lem run (c ∷ s) h = elim (Bool-cases (nat_beq c b'/')) [
  | inl slash ↦ rw slash (no_root (reverse run) (reverse-NoSlash run h), segments_lem [] s tt)
  | inr other ↦ rw other (segments_lem (c ∷ run) s (other, h))
]

walk-no_parent :
    (directory parts : List Text)
    → All (λ p. is_absolute p ≡ false) parts
    → text_in (codes "..") parts ≡ false
    → (below : List Text) × (walk directory parts ≡ below ++ directory)
      × (length below ≡ length parts)
unfolding walk text_in
walk-no_parent directory [] r h = ([], refl, refl)
walk-no_parent directory (p ∷ rest) r h =
    let other : text_beq (codes "..") p ≡ false = ground (arith, h) in
    let (below, e, n) = walk-no_parent (p ∷ directory) rest r.1 (ground (arith, h)) in
    (
      below ++ p ∷ [],
      rw (r.0, other) (e ∙ sym (append_one p below directory)),
      length-snoc p below ∙ ap suc n,
    )

relative_parts_lem : (path : Text) → All (λ p. is_absolute p ≡ false) (relative_parts path)
unfolding relative_parts
relative_parts_lem path = All-of (relative_parts path) λ p m.
    All-at (λ q. is_absolute q ≡ false) (keep_if-Member is_part (segments [] path) m).0
      (segments_lem [] path tt)

safe_parts :
    (path : Text)
    → safe_path path ≡ true
    → (is_absolute path ≡ false) × (text_in (codes "..") (parts_of path) ≡ false)
unfolding safe_path
safe_parts path h = (ground (arith, h), ground (arith, h))

-- A safe path leads, from any directory, to a place below it: as many levels down as it has parts.
pub safe_path_stays_inside :
    (path : Text) (directory : List Text)
    → safe_path path ≡ true
    → (below : List Text) × (walk directory (parts_of path) ≡ below ++ directory)
      × (length below ≡ length (parts_of path))
unfolding parts_of
safe_path_stays_inside path directory h =
    let (relative, down) = safe_parts path h in
    walk-no_parent directory (parts_of path) (rw relative (relative_parts_lem path)) down
