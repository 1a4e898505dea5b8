-- ===== src/Catalog/Paths.antt =====
-- What storecatalog uses of path/filepath on Unix: Clean, Join, IsAbs and Rel, on the segments
-- between the slashes.
pub mod Segments
use thimble.Base.{
  ℕ, ◌≡◌, refl, sym, ap, ◌∙◌, Bool, true, false, not, ◌&&◌, ◌||◌, Option, none, some, List, [], ◌∷◌,
  ◌++◌, ◌==◌, if◌then◌else◌, arith, Bytes, codes, All, all_of, equal, differs, split_at, push_byte,
  reverse, append-nil, append_assoc, Bool-cases, inl, inr, ==_iff, equal_refl,
}
use mathlib.Core.List.{reverse-append}

abbrev pub dot : Bytes
dot = codes "."

abbrev pub dots : Bytes
dots = codes ".."

-- filepath.IsAbs
unfoldable pub is_absolute : Bytes → Bool
is_absolute [] = false
is_absolute (c ∷ cs) = c == b'/'

unfoldable pub segments : Bytes → List Bytes
segments = split_at b'/'

-- a slash before each segment
unfoldable pub rooted : List Bytes → Bytes
rooted [] = []
rooted (s ∷ ss) = b'/' ∷ (s ++ rooted ss)

-- the segments with a slash between them
unfoldable pub unrooted : List Bytes → Bytes
unfolding rooted
unrooted [] = []
unrooted (s ∷ ss) = s ++ rooted ss

-- A segment `..` on the segments kept so far, the last in front.
abbrev pub step_up : Bool → List Bytes → List Bytes
step_up absolute [] = if absolute then [] else dots ∷ []
step_up absolute (s ∷ kept) = if equal s dots then dots ∷ s ∷ kept else kept

-- the loop of filepath.Clean
unfoldable pub clean_segments : Bool → List Bytes → List Bytes → List Bytes
clean_segments absolute kept [] = reverse kept
clean_segments absolute kept (s ∷ ss) =
    let skipped = clean_segments absolute kept ss in
    let up = clean_segments absolute (step_up absolute kept) ss in
    let more = clean_segments absolute (s ∷ kept) ss in
    if equal s [] || equal s dot then skipped else if equal s dots then up else more

abbrev pub or_dot : Bytes → Bytes
or_dot [] = dot
or_dot (c ∷ cs) = c ∷ cs

abbrev or_slash : Bytes → Bytes
or_slash [] = codes "/"
or_slash (c ∷ cs) = c ∷ cs

-- filepath.Clean
unfoldable pub clean : Bytes → Bytes
unfolding clean_segments rooted unrooted is_absolute segments
clean path =
    if is_absolute path
    then or_slash (rooted (clean_segments true [] (segments path)))
    else or_dot (unrooted (clean_segments false [] (segments path)))

-- filepath.Join of two elements, of which the first is not empty
unfoldable pub join : Bytes → Bytes → Bytes
unfolding clean
join root name = if equal name [] then clean root else clean (root ++ (b'/' ∷ name))

-- What is left of two lists behind their longest common beginning.
unfoldable pub strip_common : List Bytes → List Bytes → List Bytes × List Bytes
strip_common [] targ = ([], targ)
strip_common (b ∷ base) [] = (b ∷ base, [])
strip_common (b ∷ base) (t ∷ targ) =
    let rest = strip_common base targ in if equal b t then rest else (b ∷ base, t ∷ targ)

abbrev ups : List Bytes → List Bytes
ups [] = []
ups (s ∷ ss) = dots ∷ ups ss

abbrev starts_up : List Bytes → Bool
starts_up [] = false
starts_up (s ∷ ss) = equal s dots

-- filepath.Rel of two absolute paths
unfoldable pub rel : Bytes → Bytes → Option Bytes
unfolding clean strip_common
rel base targ =
    let (from, to) =
      strip_common (clean_segments true [] (segments base))
        (clean_segments true [] (segments targ)) in
    if starts_up from then none else some (or_dot (unrooted (ups from ++ to)))
