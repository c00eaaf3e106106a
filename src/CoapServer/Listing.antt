-- ===== src/CoapServer/Listing.antt =====
-- The listing of resources that `build_rsp` makes for /.well-known/core.
use gateway_project.Base.{
  ℕ, ◌+◌, ◌≤◌, ◌≡◌, refl, ap, ◌∙◌, List, [], ◌∷◌, ◌++◌, Option, none, some, true, false, length,
  take_all, append-nil, append_assoc, length-append, arith, ltb, ltb-false, lt→ltb,
}
use gateway_project.Base.Text.{codes}
use gateway_project.CoapServer.Endpoints.{
  Endpoint, Listing, strncat, add_text, add_path, add_endpoint, list_endpoint, build_rsp_loop,
  build_rsp,
}

-- The link format (RFC 6690): one link for each endpoint with attributes, separated by commas.
abbrev pub link_path : List (List ℕ) → List ℕ
link_path [] = []
link_path (e ∷ es) = codes "/" ++ (e ++ link_path es)

abbrev pub separator : List ℕ → List ℕ
separator [] = []
separator (x ∷ xs) = codes ","

abbrev pub link_text : List ℕ → List (List ℕ) → List ℕ → List ℕ
link_text before path attr =
    separator before ++ (codes "<" ++ (link_path path ++ (codes ">;" ++ attr)))

abbrev pub with_link : List ℕ → List (List ℕ) → Option (List ℕ) → List ℕ
with_link before path none = before
with_link before path (some attr) = before ++ link_text before path attr

-- The text after the endpoints, given the text before them.
abbrev pub links : List ℕ → List Endpoint → List ℕ
links before [] = before
links before (ep ∷ eps) = links (with_link before ep.path ep.core_attr) eps

-- The invariant of `build_rsp`: `len` is the room that is left in a text of at most 1499 characters.
record Holds (l : Listing) (text : List ℕ) : Type 0 where
  same_text : l.rsp ≡ text
  room : l.len + length text ≡ 1499

add_text-Holds :
    (l : Listing) (text s : List ℕ)
    → Holds l text
    → length text + length s ≤ 1499
    → Holds (add_text l s) (text ++ s)
unfolding add_text strncat
add_text-Holds l text s h fits = record {
  same_text = rw (h.same_text, take_all l.len s (omega (arith, h.room)));
  room = omega (arith, length-append text s, h.room);
}

add_path-Holds :
    (l : Listing) (text : List ℕ) (path : List (List ℕ))
    → Holds l text
    → length text + length (link_path path) ≤ 1499
    → Holds (add_path l path) (text ++ link_path path)
unfolding add_path
add_path-Holds l text [] h fits = rw (append-nil text) h
add_path-Holds l text (e ∷ es) h fits =
    let slash = add_text-Holds l text (codes "/") h (omega arith) in
    let elem =
      add_text-Holds _ (text ++ codes "/") e slash
        (omega (arith, length-append text (codes "/"), length-append e (link_path es))) in
    rw
      (
        append_assoc (text ++ codes "/") e (link_path es),
        append_assoc text (codes "/") (e ++ link_path es),
      )
      at
      (add_path-Holds (add_text (add_text l (codes "/")) e) ((text ++ codes "/") ++ e) es elem (
        omega (
          arith,
          length-append (text ++ codes "/") e,
          length-append text (codes "/"),
          length-append e (link_path es),
        )))

-- One link, behind a text that may need a separator.
add_link-Holds :
    (l : Listing) (text : List ℕ) (path : List (List ℕ)) (attr : List ℕ)
    → Holds l text
    → length text + length (codes "<" ++ (link_path path ++ (codes ">;" ++ attr))) ≤ 1499
    → Holds
        (add_text (add_text (add_path (add_text l (codes "<")) path) (codes ">;")) attr)
        (text ++ (codes "<" ++ (link_path path ++ (codes ">;" ++ attr))))
add_link-Holds l text path attr h fits =
    let total : length text + (1 + (length (link_path path) + (2 + length attr))) ≤ 1499 =
      omega (arith, length-append (link_path path) (codes ">;" ++ attr)) in
    let t₁ = text ++ codes "<" in
    let t₂ = t₁ ++ link_path path in
    let t₃ = t₂ ++ codes ">;" in
    let n₁ : length t₁ ≡ length text + 1 = length-append text (codes "<") ∙ omega arith in
    let n₂ : length t₂ ≡ length text + 1 + length (link_path path) =
      omega (arith, length-append t₁ (link_path path)) in
    let n₃ : length t₃ ≡ length text + 3 + length (link_path path) =
      omega (arith, length-append t₂ (codes ">;")) in
    let h₁ = add_text-Holds l text (codes "<") h (omega arith) in
    let h₂ = add_path-Holds _ t₁ path h₁ (omega arith) in
    let h₃ = add_text-Holds _ t₂ (codes ">;") h₂ (omega arith) in
    rw
      (
        append_assoc t₂ (codes ">;") attr,
        append_assoc t₁ (link_path path) (codes ">;" ++ attr),
        append_assoc text (codes "<") (link_path path ++ (codes ">;" ++ attr)),
      )
      at (add_text-Holds _ t₃ attr h₃ (omega arith))

add_endpoint-Holds :
    (l : Listing) (text : List ℕ) (path : List (List ℕ)) (attr : List ℕ)
    → Holds l text
    → length text + length (link_text text path attr) ≤ 1499
    → Holds (add_endpoint l path attr) (text ++ link_text text path attr)
unfolding add_endpoint
add_endpoint-Holds l [] path attr h fits =
    let nothing : ltb 0 (length l.rsp) ≡ false =
      ltb-false 0 (length l.rsp) (omega (arith, ap length h.same_text)) in
    rw nothing (add_link-Holds l [] path attr h fits)
add_endpoint-Holds l (x ∷ xs) path attr h fits =
    let text = x ∷ xs in
    let comma = add_text-Holds l text (codes ",") h (omega arith) in
    let something : ltb 0 (length l.rsp) ≡ true =
      lt→ltb 0 (length l.rsp) (omega (arith, ap length h.same_text)) in
    rw something (
      rw (append_assoc text (codes ",") (codes "<" ++ (link_path path ++ (codes ">;" ++ attr)))) at
        (add_link-Holds _ (text ++ codes ",") path attr comma
          (omega (arith, length-append text (codes ",")))))

-- The text only grows.
length-with_link :
    (text : List ℕ) (path : List (List ℕ)) (a : Option (List ℕ))
    → length text ≤ length (with_link text path a)
length-with_link text path none = omega arith
length-with_link text path (some attr) =
    omega (arith, length-append text (link_text text path attr))

length-links : (eps : List Endpoint) (text : List ℕ) → length text ≤ length (links text eps)
length-links [] text = omega arith
length-links (ep ∷ eps) text = omega (
  arith,
  length-with_link text ep.path ep.core_attr,
  length-links eps (with_link text ep.path ep.core_attr),
)

list_endpoint-Holds :
    (l : Listing) (text : List ℕ) (path : List (List ℕ)) (a : Option (List ℕ))
    → Holds l text
    → length (with_link text path a) ≤ 1499
    → Holds (list_endpoint l path a) (with_link text path a)
unfolding list_endpoint
list_endpoint-Holds l text path none h fits = h
list_endpoint-Holds l text path (some attr) h fits =
    add_endpoint-Holds l text path attr h
      (omega (arith, length-append text (link_text text path attr)))

build_rsp_loop-links :
    (eps : List Endpoint) (l : Listing) (text : List ℕ)
    → Holds l text
    → length (links text eps) ≤ 1499
    → (build_rsp_loop l eps).rsp ≡ links text eps
unfolding build_rsp_loop
build_rsp_loop-links [] l text h fits = h.same_text
build_rsp_loop-links (ep ∷ eps) l text h fits =
    build_rsp_loop-links eps (list_endpoint l ep.path ep.core_attr)
      (with_link text ep.path ep.core_attr)
      (list_endpoint-Holds l text ep.path ep.core_attr h
        (omega (arith, length-links eps (with_link text ep.path ep.core_attr))))
      fits

-- `build_rsp` makes the listing in the link format, with a link for each endpoint that has
-- attributes, if that listing has at most 1499 characters: nothing is cut off.
pub build_rsp-links :
    (eps : List Endpoint) → length (links [] eps) ≤ 1499 → build_rsp eps ≡ links [] eps
unfolding build_rsp
build_rsp-links eps fits =
    build_rsp_loop-links eps (record { rsp = []; len = 1499 }) []
      (record { same_text = refl; room = omega arith }) fits
