-- ===== src/Domain/Ports.antt =====
-- domain/model.go: port ranges as text, ParsePortRange, FormatPortRanges and ParsePortRanges. A row
-- holds only ranges with bounds that are not negative.
pub mod RoundTrip
mod Tests
use huawei_api.Base.{
  ℕ, ◌≡◌, Bool, true, false, not, ◌&&◌, leb, ◌==◌, if◌then◌else◌, Option, none, some, List, [], ◌∷◌,
  ◌++◌,
}
use huawei_api.Base.Int.{ℤ, pos, leb_ℤ, pos_part}
use huawei_api.Base.Text.{Text, trim_space, is_empty, cut, split, join, itoa, atoi}
use huawei_api.Domain.Errors.{Err, invalid, Result, ok, err, ◌>>=◌, ◌>>◌, refuse_if}
use huawei_api.Domain.Model.{PortRange}

-- PortRange.Contains
abbrev pub contains : PortRange → ℕ → Bool
contains r p = leb r.lo p && leb p r.hi

-- PortRange.String
unfoldable pub range_text : PortRange → Text
range_text r = if r.lo == r.hi then itoa r.lo else itoa r.lo ++ (b'-' ∷ itoa r.hi)

-- The two bounds, once the text is cut: without a dash the one bound is both.
abbrev pub bound_texts : Text × Option Text → Text × Text
bound_texts (lo, none) = (lo, lo)
bound_texts (lo, some hi) = (lo, hi)

abbrev pub if_number : Option ℤ → Result ℤ
if_number none = err invalid
if_number (some n) = ok n

abbrev pub number : Text → Result ℤ
number s = if_number (atoi (trim_space s))

-- `PortRange{Lo: l, Hi: h}` with its Valid.
abbrev pub valid_range : ℤ → ℤ → Result PortRange
valid_range l h =
    if leb_ℤ (pos 1) l && leb_ℤ h (pos 65535) && leb_ℤ l h
    then ok (record { lo = pos_part l; hi = pos_part h })
    else err invalid

-- ParsePortRange
unfoldable pub parse_port_range : Text → Result PortRange
parse_port_range s = do
  let bounds = bound_texts (cut b'-' (trim_space s))
  l ← number bounds.0
  h ← number bounds.1
  valid_range l h

-- FormatPortRanges
abbrev pub range_texts : List PortRange → List Text
range_texts [] = []
range_texts (r ∷ rs) = range_text r ∷ range_texts rs

unfoldable pub format_port_ranges : List PortRange → Text
format_port_ranges rs = join b',' (range_texts rs)

-- The loop of ParsePortRanges: a blank part is passed over.
pub parse_parts : List Text → Result (List PortRange)
parse_parts [] = ok []
parse_parts (p ∷ ps) =
    let rest = parse_parts ps in
    if is_empty (trim_space p)
    then rest
    else (parse_port_range p >>= λ r. rest >>= λ rs. ok (r ∷ rs))

-- ParsePortRanges
unfoldable pub parse_port_ranges : Text → Result (List PortRange)
unfolding parse_parts
parse_port_ranges s =
    let trimmed = trim_space s in
    if is_empty trimmed then ok [] else parse_parts (split b',' trimmed)
