-- ===== src/Runner/Hosts.antt =====
-- crates/fabric-runner/src/directory.rs: the block of the hosts file that the runner owns.
pub mod Lines
pub mod Again
use Prim.Native.String.{String}
use mathlib.Core.List.{reverse}
use forgewire_fabric.Prelude.{
  Bool, true, false, Option, none, some, List, [], ◌∷◌, ◌++◌, map, Text, text, text_eq, starts_with,
  strip_suffix, trim, drop_while, is_whitespace, is_empty, filter, ◌==◌, if◌then◌else◌,
}
use forgewire_fabric.Prelude.TextMaps.{values}
use forgewire_fabric.Runner.Directory.{DirectoryEntry, NodeDirectory}

abbrev pub block_begin : Text
block_begin = text "# forgewire-managed begin (do not edit; rewritten by ForgeWireRunner)"

abbrev pub block_end : Text
block_end = text "# forgewire-managed end"

-- An address with the names that it stands for.
abbrev pub HostLine : Type 0
HostLine = Text × List Text

abbrev pub line_of : DirectoryEntry → HostLine
line_of e = (e.ip, e.hostname ∷ (e.hostname ++ text ".local") ∷ [])

abbrev pub host_lines : NodeDirectory → List HostLine
host_lines entries = map line_of (filter (λ e. e.verified) (values entries))

abbrev pub with_names : Text → List Text → Text
with_names ip [] = ip
with_names ip (n ∷ names) = with_names (ip ++ b' ' ∷ n) names

abbrev pub render_line : HostLine → Text
render_line l = with_names l.0 l.1

-- Lines, each with its line feed.
abbrev pub unlines : List Text → Text
unlines [] = []
unlines (l ∷ ls) = l ++ b'\n' ∷ unlines ls

unfoldable pub render_block : List HostLine → Text
render_block lines = unlines (block_begin ∷ (map render_line lines ++ block_end ∷ []))

-- `str::lines`, behind the characters of the line so far in reverse: a line loses its line feed and
-- one carriage return before it.
abbrev pub strip_return : Text → Text
strip_return [] = []
strip_return (c ∷ back) = if c == b'\r' then back else c ∷ back

abbrev pub lines_from : Text → Text → List Text
lines_from back [] = if is_empty back then [] else reverse back ∷ []
lines_from back (c ∷ s) =
    let same = lines_from (c ∷ back) s in
    let next = reverse (strip_return back) ∷ lines_from [] s in if c == b'\n' then next else same

abbrev pub lines : Text → List Text
lines s = lines_from [] s

abbrev pub trim_start : Text → Text
trim_start s = drop_while is_whitespace s

abbrev pub begins_block : Text → Bool
begins_block line = starts_with (trim_start line) (text "# forgewire-managed begin")

-- The lines outside of managed blocks.
abbrev pub foreign : Bool → List Text → List Text
foreign in_block [] = []
foreign in_block (line ∷ rest) =
    let inside = foreign true rest in
    let outside = foreign false rest in
    if begins_block line
    then inside
    else if in_block
    then (if text_eq (trim_start line) block_end then outside else inside)
    else line ∷ outside

-- `while matches!(kept.last(), Some(l) if l.trim().is_empty()) { kept.pop(); }`
abbrev pub is_blank : Text → Bool
is_blank line = is_empty (trim line)

abbrev pub drop_blanks : List Text → List Text
drop_blanks [] = []
drop_blanks (line ∷ rest) = if is_blank line then drop_blanks rest else line ∷ rest

abbrev pub pop_blanks : List Text → List Text
pop_blanks kept = reverse (drop_blanks (reverse kept))

-- `kept.join("\n")`
abbrev pub join_lines : List Text → Text
join_lines [] = []
join_lines (l ∷ []) = l
join_lines (l ∷ m ∷ ls) = l ++ b'\n' ∷ join_lines (m ∷ ls)

-- The line feed between the kept lines and the block, where there are any.
abbrev pub ended : Text → Text
ended [] = []
ended (c ∷ s) = (c ∷ s) ++ b'\n' ∷ []

unfoldable pub splice_block : Text → Text → Text
splice_block existing block =
    ended (join_lines (pop_blanks (foreign false (lines existing)))) ++ block

-- The text to write to the hosts file, if it differs from what is there.
unfoldable pub reconcile : Text → NodeDirectory → Option Text
unfolding splice_block render_block
reconcile existing directory =
    let updated = splice_block existing (render_block (host_lines directory)) in
    if text_eq updated existing then none else some updated
