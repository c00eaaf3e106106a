-- ===== src/Gateway/Pending.antt =====
-- The messages on their way from the reader to the sender.
use gateway_project.Base.{
  ℕ, ◌≡◌, ◌≢◌, refl, sym, ap, ◌∙◌, List, [], ◌∷◌, ◌++◌, append_assoc, map, All, All-append, Option,
  none, some, ==_false, ==_true, ok,
}
use gateway_project.Base.Text.{c_string, string_at}
use gateway_project.Comm.Heap.{Ptr}
use gateway_project.IpTable.Lines.{Exit}
use gateway_project.IpTable.Append.{AreApart, AreApart-append, towards}
use gateway_project.Gateway.Threads.{Messages, put_message, Delivery, text_at}

abbrev pub IsText : Messages → Ptr → Type 0
IsText ms p = (m : List ℕ) × (ms p ≡ some m) × (string_at {E = Exit} m ≡ ok (c_string m))

abbrev pub texts_of : Messages → List Ptr → List (List ℕ)
texts_of ms = map (text_at ms)

abbrev pub text_of_delivery : Delivery → List ℕ
text_of_delivery d = d.text

-- The messages under way are allocated, at different addresses, and hold the texts that were received
-- and not sent yet, in their order.
pub record IsPending (ms : Messages) (ps : List Ptr) (received : List (List ℕ))
    (sent : List Delivery) : Type 0 where
  pub live : All (IsText ms) ps
  pub apart : AreApart ps
  pub history : received ≡ map text_of_delivery sent ++ texts_of ms ps

-- A change at another address.
put-live :
    (ms : Messages) (p : Ptr) (c : Option (List ℕ)) (ps : List Ptr)
    → All (λ q. q ≢ p) ps
    → All (IsText ms) ps
    → All (IsText (put_message ms p c)) ps
put-live ms p c [] a h = tt
put-live ms p c (q ∷ qs) (ne, a) ((n, there, t), h) =
    ((n, rw (==_false q p ne) there, t), put-live ms p c qs a h)

put-texts :
    (ms : Messages) (p : Ptr) (c : Option (List ℕ)) (ps : List Ptr)
    → All (λ q. q ≢ p) ps
    → texts_of (put_message ms p c) ps ≡ texts_of ms ps
put-texts ms p c [] a = refl
put-texts ms p c (q ∷ qs) (ne, a) = rw (==_false q p ne, put-texts ms p c qs a)

live-ne :
    (ms : Messages) (p : Ptr) (ps : List Ptr)
    → ms p ≡ none
    → All (IsText ms) ps
    → All (λ q. p ≢ q) ps
live-ne ms p [] e h = tt
live-ne ms p (q ∷ qs) e ((n, there, t), h) =
    (λ same. some-ne-none n (sym there ∙ (ap ms (sym same) ∙ e)), live-ne ms p qs e h)
  where
    some-ne-none : (m : List ℕ) → ◌≡◌ {A = Option (List ℕ)} (some m) none → ⊥
    some-ne-none m k = cc

map-append :
    (ms : Messages) (ps : List Ptr) (p : Ptr)
    → texts_of ms (ps ++ (p ∷ [])) ≡ texts_of ms ps ++ (text_at ms p ∷ [])
map-append ms [] p = refl
map-append ms (q ∷ qs) p = rw (map-append ms qs p)

-- A new message is the last one.
pub IsPending-append :
    (ms : Messages) (ps : List Ptr) (received : List (List ℕ)) (sent : List Delivery) (p : Ptr)
    (frame : List ℕ)
    → IsPending ms ps received sent
    → ms p ≡ none
    → string_at {E = Exit} frame ≡ ok (c_string frame)
    → IsPending
        (put_message ms p (some frame))
        (ps ++ (p ∷ []))
        (received ++ (c_string frame ∷ []))
        sent
IsPending-append ms ps received sent p frame w unused str =
    let ms' = put_message ms p (some frame) in
    let out = live-ne ms p ps unused w.live in
    let at_p : ms' p ≡ some frame = rw (==_true p p refl) in
    record {
      live =
          All-append (IsText ms') ps (p ∷ [])
            (put-live ms p (some frame) ps (towards ps p out) w.live) ((frame, at_p, str), tt);
      apart = AreApart-append p ps w.apart out;
      history = rw (
        w.history,
        map-append ms' ps p,
        put-texts ms p (some frame) ps (towards ps p out),
        at_p,
        append_assoc (map text_of_delivery sent) (texts_of ms ps) (c_string frame ∷ []),
      );
    }

deliveries-append :
    (sent : List Delivery) (d : Delivery)
    → map text_of_delivery (sent ++ (d ∷ [])) ≡ map text_of_delivery sent ++ (d.text ∷ [])
deliveries-append [] d = refl
deliveries-append (x ∷ xs) d = rw (deliveries-append xs d)

-- The first message is handled and kept.
pub IsPending-drop :
    (ms : Messages) (p : Ptr) (ps : List Ptr) (received : List (List ℕ)) (sent : List Delivery)
    (fds : List ℕ)
    → IsPending ms (p ∷ ps) received sent
    → IsPending ms ps received (sent ++ (record { text = text_at ms p; fds = fds } ∷ []))
IsPending-drop ms p ps received sent fds w = record {
  live = w.live.1;
  apart = w.apart.1;
  history = rw (
    w.history,
    deliveries-append sent (record { text = text_at ms p; fds = fds }),
    append_assoc (map text_of_delivery sent) (text_at ms p ∷ []) (texts_of ms ps),
  );
}

-- The first message is sent and freed.
pub IsPending-tail :
    (ms : Messages) (p : Ptr) (ps : List Ptr) (received : List (List ℕ)) (sent : List Delivery)
    (fds : List ℕ)
    → IsPending ms (p ∷ ps) received sent
    → IsPending
        (put_message ms p none)
        ps
        received
        (sent ++ (record { text = text_at ms p; fds = fds } ∷ []))
IsPending-tail ms p ps received sent fds w = record {
  live = put-live ms p none ps w.apart.0 w.live.1;
  apart = w.apart.1;
  history = rw (
    w.history,
    deliveries-append sent (record { text = text_at ms p; fds = fds }),
    put-texts ms p none ps w.apart.0,
    append_assoc (map text_of_delivery sent) (text_at ms p ∷ []) (texts_of ms ps),
  );
}
