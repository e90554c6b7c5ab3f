-- ===== src/HttpCache/Headers.antt =====
-- pkg/http/cache/cache.go: what the cache reads of the headers of a request, and makes of those of
-- a response.
use nimburion.Base.{
  split_on, Text, codes, List, [], ◌∷◌, ◌++◌, Bool, true, false, not, ◌||◌, eq_text, any, is_empty,
  if◌then◌else◌, trim_space, remove,
}
use nimburion.Policy.{join, to_lower}
use nimburion.Http.{Headers, get_header, set_header, has_text}
use nimburion.HttpCache.{Config}
use nimburion.HttpCache.Keys.{Request}

unfoldable pub should_bypass : Config → Request → Bool
unfolding to_lower trim_space
should_bypass c req =
    let cc = to_lower (trim_space (req.header (codes "Cache-Control"))) in
    let param = trim_space c.bypass_query_param in
    let val = to_lower (trim_space (req.query param)) in
    if has_text (codes "no-cache") cc || has_text (codes "no-store") cc
    then true
    else if is_empty param || is_empty val
    then false
    else not (eq_text val (codes "0") || eq_text val (codes "false") || eq_text val (codes "off"))

unfoldable pub if_none_match_satisfied : Request → Text → Bool
unfolding trim_space split_on
if_none_match_satisfied req etag =
    let header = trim_space (req.header (codes "If-None-Match")) in
    if is_empty (trim_space etag) || is_empty header
    then false
    else if eq_text header (codes "*")
    then true
    else any (λ token. eq_text (trim_space token) etag) (split_on b',' header)

abbrev kept_items : List Text → List Text
kept_items [] = []
kept_items (part ∷ parts) =
    let rest = kept_items parts in
    let trimmed = trim_space part in if is_empty trimmed then rest else trimmed ∷ rest

unfoldable pub parse_csv_header : Text → List Text
unfolding trim_space split_on
parse_csv_header value =
    if is_empty (trim_space value) then [] else kept_items (split_on b',' value)

-- One loop over items: `seen`, and what is appended to `merged`.
abbrev merge_items : (Text → Text) → List Text → List Text → List Text × List Text
merge_items f seen [] = (seen, [])
merge_items f seen (item ∷ items) =
    let normalized = to_lower (trim_space item) in
    let skipped = merge_items f seen items in
    let taken = merge_items f (normalized ∷ seen) items in
    if is_empty normalized || any (eq_text normalized) seen
    then skipped
    else (taken.0, f item ∷ taken.1)

unfoldable pub apply_vary : Headers → List Text → Headers
unfolding parse_csv_header get_header set_header to_lower trim_space join
apply_vary h vary =
    let existing = merge_items (λ item. item) [] (parse_csv_header (get_header (codes "Vary") h)) in
    let merged = existing.1 ++ (merge_items trim_space existing.0 vary).1 in
    if is_empty vary || is_empty merged
    then h
    else set_header (codes "Vary") (join (codes ", ") merged) h

abbrev drop : List Text
drop =
    codes "Connection"
    ∷ codes "Keep-Alive"
    ∷ codes "Proxy-Authenticate"
    ∷ codes "Proxy-Authorization"
    ∷ codes "Te"
    ∷ codes "Trailer"
    ∷ codes "Transfer-Encoding"
    ∷ codes "Upgrade"
    ∷ codes "Set-Cookie"
    ∷ codes "Date"
    ∷ codes "Content-Length"
    ∷ []

abbrev delete_all : List Text → Headers → Headers
delete_all [] h = h
delete_all (key ∷ keys) h = delete_all keys (remove key h)

unfoldable pub filter_headers : Headers → Headers
unfolding remove
filter_headers h = delete_all drop h
