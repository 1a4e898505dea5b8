-- ===== src/Peer/RoundTrip/Entries.antt =====
-- The lines of a peer's table, and of the whole file.
use thimble.Base.{
  ℕ, ◌+◌, ◌≡◌, refl, ap, ◌∙◌, true, List, [], ◌∷◌, ◌++◌, arith, Bytes, codes, All, all_of,
  all_of_imp, all_of-append, append_assoc, append-nil, equal, contains, differs, cut_at, split_at,
}
use thimble.Base.Space.{solid, trim_space}
use thimble.Errors.{ok, ◌>>=◌}
use thimble.Quorum.Toml.{strip_comment}
use thimble.Peer.{Peer}
use thimble.Peer.File.{
  Reader, blank_peer, quote, field, assign_field, parse_line, parse_lines, finalize_peers,
  encode_entries,
}
use thimble.Peer.RoundTrip.Assignment.{
  plain, quote_from-plain, set_last-concat, split_at-line, Key, quoted, line_of, parse_line-line_of,
}

name-Key : Key (codes "name")
unfolding solid trim_space all_of
name-Key = record {
  head = b'n';
  tail = codes "ame";
  is_word = refl;
  head_solid = refl;
  no_bracket = refl;
  trimmed = refl;
  assigns = refl;
  opens = refl;
}

target-Key : Key (codes "target")
unfolding solid trim_space all_of
target-Key = record {
  head = b't';
  tail = codes "arget";
  is_word = refl;
  head_solid = refl;
  no_bracket = refl;
  trimmed = refl;
  assigns = refl;
  opens = refl;
}

-- The peer's name and target are printed as they are.
pub record IsPlain (p : Peer) : Type 0 where
  pub name : all_of plain p.name ≡ true
  pub target : all_of plain p.target ≡ true

entry_lines : Peer → List Bytes → List Bytes
entry_lines p rest =
    []
    ∷ codes "[[peers]]"
    ∷ line_of (codes "name") p.name
    ∷ line_of (codes "target") p.target
    ∷ rest

after_entry : Reader → Peer → Reader
after_entry r p = record { peers = r.peers ++ (p ∷ []); in_section = true }

assign_name :
    (ps : List Peer) (v : Bytes)
    → assign_field (codes "name") v (record { peers = ps ++ (blank_peer ∷ []); in_section = true })
      ≡ ok (record { peers = ps ++ (record { name = v; target = [] } ∷ []); in_section = true })
unfolding assign_field equal
assign_name ps v = rw (set_last-concat (λ p. record p { name = v }) ps blank_peer) refl

assign_target :
    (ps : List Peer) (n v : Bytes)
    → assign_field
        (codes "target")
        v
        (record { peers = ps ++ (record { name = n; target = [] } ∷ []); in_section = true })
      ≡ ok (record { peers = ps ++ (record { name = n; target = v } ∷ []); in_section = true })
unfolding assign_field equal
assign_target ps n v =
    rw (set_last-concat (λ p. record p { target = v }) ps (record { name = n; target = [] })) refl

pub parse_lines-step :
    (n : ℕ) (raw : Bytes) (rest : List Bytes) (r q : Reader)
    → parse_line (trim_space (strip_comment raw)) r ≡ ok q
    → parse_lines n (raw ∷ rest) r ≡ parse_lines (n + 1) rest q
unfolding parse_lines parse_line
parse_lines-step n raw rest r q h = rw (parse_lines, h) refl

parse_blank : (r : Reader) → parse_line (trim_space (strip_comment [])) r ≡ ok r
unfolding parse_line trim_space strip_comment cut_at contains
parse_blank r = refl

parse_section :
    (r : Reader)
    → parse_line (trim_space (strip_comment (codes "[[peers]]"))) r ≡ ok (after_entry r blank_peer)
unfolding parse_line trim_space strip_comment cut_at contains equal after_entry
parse_section r = refl

parse_lines-entry :
    (n : ℕ) (p : Peer) (rest : List Bytes) (r : Reader)
    → IsPlain p
    → parse_lines n (entry_lines p rest) r ≡ parse_lines (n + 1 + 1 + 1 + 1) rest (after_entry r p)
unfolding entry_lines after_entry
parse_lines-entry n p rest r h =
    parse_lines-step n [] _ r r (parse_blank r)
    ∙ parse_lines-step (n + 1) (codes "[[peers]]") _ r (after_entry r blank_peer) (parse_section r)
    ∙ parse_lines-step (n + 1 + 1) (line_of (codes "name") p.name) _ (after_entry r blank_peer)
        (after_entry r (record { name = p.name; target = [] }))
        (parse_line-line_of (codes "name") p.name (after_entry r blank_peer) name-Key h.name refl
          ∙ assign_name r.peers p.name)
    ∙ parse_lines-step (n + 1 + 1 + 1) (line_of (codes "target") p.target) rest
        (after_entry r (record { name = p.name; target = [] })) (after_entry r p)
        (parse_line-line_of (codes "target") p.target
            (after_entry r (record { name = p.name; target = [] })) target-Key h.target refl
          ∙ assign_target r.peers p.name p.target)

pub all_lines : List Peer → List Bytes
all_lines [] = [] ∷ []
all_lines (p ∷ ps) = entry_lines p (all_lines ps)

pub parse_lines-all_lines :
    (ps : List Peer) (n : ℕ) (r : Reader)
    → All IsPlain ps
    → parse_lines n (all_lines ps) r >>= (λ q. finalize_peers q.peers)
      ≡ finalize_peers (r.peers ++ ps)
unfolding all_lines after_entry parse_lines finalize_peers
parse_lines-all_lines [] n r h =
    rw (parse_lines-step n [] [] r r (parse_blank r), append-nil r.peers, parse_lines) refl
parse_lines-all_lines (p ∷ ps) n r h = rw (parse_lines-entry n p (all_lines ps) r h.0) (
    parse_lines-all_lines ps (n + 1 + 1 + 1 + 1) (after_entry r p) h.1
    ∙ ap finalize_peers (append_assoc r.peers (p ∷ []) ps))

plain-differs_newline : (c : ℕ) → plain c ≡ true → differs b'\n' c ≡ true
unfolding plain solid
plain-differs_newline c h = ground arith

no_newline_line_of :
    (key s : Bytes)
    → all_of (differs b'\n') key ≡ true
    → all_of plain s ≡ true
    → all_of (differs b'\n') (line_of key s) ≡ true
unfolding line_of all_of
no_newline_line_of key s hk hs =
    rw
      (
        all_of-append (differs b'\n') key (codes " = " ++ quoted s),
        hk,
        all_of,
        all_of-append (differs b'\n') s (b'"' ∷ []),
        all_of_imp plain (differs b'\n') plain-differs_newline s hs,
      )
      refl

encode_entries-cons :
    (wide : Bytes → Bytes) (p : Peer) (ps : List Peer)
    → IsPlain p
    → encode_entries wide (p ∷ ps)
      ≡ b'\n'
        ∷ (codes "[[peers]]"
            ++ (b'\n'
                ∷ (line_of (codes "name") p.name
                    ++ (b'\n'
                        ∷ (line_of (codes "target") p.target
                            ++ (b'\n' ∷ encode_entries wide ps))))))
unfolding encode_entries field quote line_of
encode_entries-cons wide p ps h =
    rw (quote_from-plain wide p.name h.name, quote_from-plain wide p.target h.target) refl

split_at-no_peers : (wide : Bytes → Bytes) → split_at b'\n' (encode_entries wide []) ≡ [] ∷ []
unfolding split_at encode_entries
split_at-no_peers wide = refl

section_line : all_of (differs b'\n') (codes "[[peers]]") ≡ true
unfolding all_of
section_line = refl

name_line : all_of (differs b'\n') (codes "name") ≡ true
unfolding all_of
name_line = refl

target_line : all_of (differs b'\n') (codes "target") ≡ true
unfolding all_of
target_line = refl

pub split_at-encode_entries :
    (wide : Bytes → Bytes) (ps : List Peer)
    → All IsPlain ps
    → split_at b'\n' (encode_entries wide ps) ≡ all_lines ps
unfolding all_lines entry_lines all_of
split_at-encode_entries wide [] h = split_at-no_peers wide
split_at-encode_entries wide (p ∷ ps) h =
    rw
      (
        encode_entries-cons wide p ps h.0,
        split_at-line b'\n' [] (codes "[[peers]]" ++ _) refl,
        split_at-line b'\n' (codes "[[peers]]") _ section_line,
        split_at-line b'\n' (line_of (codes "name") p.name) _
            (no_newline_line_of (codes "name") p.name name_line h.0.name),
        split_at-line b'\n' (line_of (codes "target") p.target) _
            (no_newline_line_of (codes "target") p.target target_line h.0.target),
        split_at-encode_entries wide ps h.1,
      )
      refl
