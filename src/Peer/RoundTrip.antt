-- ===== src/Peer/RoundTrip.antt =====
-- What Load reads of the file that Save wrote.
mod Assignment
mod Entries
use thimble.Base.{
  ℕ, suc, ◌+◌, ◌≡◌, refl, sym, ap, ◌∙◌, Bool, true, false, not, ◌&&◌, ◌||◌, Option, none, some,
  List, [], ◌∷◌, ◌++◌, ◌==◌, if◌then◌else◌, arith, Bytes, codes, All, all_of, &&_left, &&_right,
  all_of_imp, all_of-append, append_assoc, append-nil, Option-cases, inl, inr, equal, has_prefix,
  contains, differs, cut_at, cut_at-append, split_at, reverse, push_byte,
}
use mathlib.Core.List.{reverse-append, reverse-reverse}
use thimble.Base.Space.{Solid, solid, space1, space2, space3, trim_by, trim_space, trim_space-Solid}
use thimble.Errors.{Result, ok, err, ◌>>=◌, ◌>>◌, require, in_line}
use thimble.Quorum.Toml.{
  set_last, strip_comment, strip_after_quote, split_assignment, unquote, unquote_inner,
}
use thimble.Peer.{Peer, illegal_in_name, forbidden_in_target, validate_peer, validate_target}
use thimble.Peer.Members.{Reached, Reached-IsMembership}
use thimble.Peer.Members.Valid.{IsValid, validate_peer-eq-ok, finalize_peers_iff}
use thimble.Peer.File.{
  Reader, nothing_read, blank_peer, quote_byte, quote_from, quote, field, assign_field, parse_kv,
  parse_line, parse_lines, finalize_peers, parse_peers, load_peers, heading, encode_entries,
  encode_peers,
}
use thimble.Peer.RoundTrip.Assignment.{plain, split_at-line}
use thimble.Peer.RoundTrip.Entries.{
  IsPlain, parse_lines-step, all_lines, parse_lines-all_lines, split_at-encode_entries,
}

abbrev first_heading : Bytes
first_heading = codes "# Thimble peers (K-55). Each [[peers]] entry is a leader"

abbrev second_heading : Bytes
second_heading = codes "# this leader replicates to. peer add/remove update this file."

heading_lines :
    (rest : Bytes)
    → split_at b'\n' (heading ++ rest) ≡ first_heading ∷ second_heading ∷ split_at b'\n' rest
unfolding all_of
heading_lines rest =
    split_at-line b'\n' first_heading (second_heading ++ (b'\n' ∷ rest)) refl
    ∙ ap (◌∷◌ first_heading) (split_at-line b'\n' second_heading rest refl)

parse_first_heading : (r : Reader) → parse_line (trim_space (strip_comment first_heading)) r ≡ ok r
unfolding parse_line trim_space strip_comment cut_at contains
parse_first_heading r = refl

parse_second_heading :
    (r : Reader) → parse_line (trim_space (strip_comment second_heading)) r ≡ ok r
unfolding parse_line trim_space strip_comment cut_at contains
parse_second_heading r = refl

parse_peers-encode_peers :
    (wide : Bytes → Bytes) (ps : List Peer)
    → All IsPlain ps
    → parse_peers (encode_peers wide ps) ≡ finalize_peers ps
unfolding parse_peers encode_peers
parse_peers-encode_peers wide ps h =
    rw
      (
        heading_lines (encode_entries wide ps),
        split_at-encode_entries wide ps h,
        parse_lines-step 0 first_heading (second_heading ∷ all_lines ps) nothing_read nothing_read
            (parse_first_heading nothing_read),
        parse_lines-step 1 second_heading (all_lines ps) nothing_read nothing_read
            (parse_second_heading nothing_read),
      )
      (parse_lines-all_lines ps 2 nothing_read h)

-- No white space and no control byte in the name or in the target.
pub record IsPrintable (p : Peer) : Type 0 where
  pub name : all_of solid p.name ≡ true
  pub target : all_of solid p.target ≡ true

plain-legal :
    (bad : ℕ → Bool)
    → ((c : ℕ) → bad c ≡ false → illegal_in_name c ≡ false)
    → (s : Bytes) → contains bad s ≡ false
    → all_of solid s ≡ true
    → all_of plain s ≡ true
unfolding contains all_of plain illegal_in_name
plain-legal bad h [] e p = refl
plain-legal bad h (c ∷ cs) e p = ground (arith, h c, plain-legal bad h cs)

allowed-legal : (c : ℕ) → forbidden_in_target c ≡ false → illegal_in_name c ≡ false
unfolding forbidden_in_target
allowed-legal c h = ground arith

printable-IsPlain : (ps : List Peer) → All IsValid ps → All IsPrintable ps → All IsPlain ps
printable-IsPlain [] v h = tt
printable-IsPlain (p ∷ ps) v h =
    let (_, legal, _, allowed) = validate_peer-eq-ok p v.0 in
    (
      record {
        name = plain-legal illegal_in_name (λ c e. e) p.name legal h.0.name;
        target = plain-legal forbidden_in_target allowed-legal p.target allowed h.0.target;
      },
      printable-IsPlain ps v.1 h.1,
    )

-- For a manager whose names and targets are printable ASCII, Load returns the peers that Save
-- wrote.
pub load_peers-encode_peers :
    (wide : Bytes → Bytes) (ps : List Peer)
    → Reached ps
    → All IsPrintable ps
    → load_peers (some (encode_peers wide ps)) ≡ ok ps
unfolding load_peers
load_peers-encode_peers wide ps r h =
    let m = Reached-IsMembership ps r in
    parse_peers-encode_peers wide ps (printable-IsPlain ps m.valid h) ∙ (finalize_peers_iff ps).1 m
