-- ===== src/Tests/Gobs.antt =====
-- A coding of lists of items that can be undone, in the place of `encoding/gob`'s.
use urlshortner.Prelude.{
  take, ℕ, zero, suc, ◌≤◌, ◌<◌, Str, str, length, length-append, Bool, true, false, All, ◌≡◌, ◌∙◌,
  ap, sym, refl, none, some, List, [], ◌∷◌, ◌++◌, if◌then◌else◌, arith,
}
use urlshortner.Storage.Errors.{Error, message}
use urlshortner.Storage.Database.Buffer.Overflow.{IsCutShort}
use mathlib.Core.List.{append-nil}
use urlshortner.Storage.Database.Buffer.{Item, Gob}
use urlshortner.Storage.Database.Buffer.Delivery.{stream, IsGob}

-- 0 stands in front of a message and 3 behind it, 1 in front of an item and 2 between its two
-- texts. A stream that does not end behind a message is an error.
abbrev pub shifted : Str → Str → Str
shifted [] t = t
shifted (b ∷ s) t = suc (suc (suc (suc b))) ∷ shifted s t

abbrev encode_items : List Item → Str → Str
encode_items [] t = t
encode_items (v ∷ vs) t = 1 ∷ shifted v.id (2 ∷ shifted v.user_id (encode_items vs t))

-- What stands behind a place of the stream.
record Parsed : Type 0 where
  text : Str
  user : Str
  items : List Item
  messages : List (List Item)

abbrev step : ℕ → Parsed → Parsed
step zero st = record st { items = []; messages = st.items ∷ st.messages }
step (suc zero) st = record st {
  text = [];
  items = record { id = st.text; user_id = st.user } ∷ st.items;
}
step (suc (suc zero)) st = record st { text = []; user = st.text }
step (suc (suc (suc zero))) st = record st { text = [] }
step (suc (suc (suc (suc b)))) st = record st { text = b ∷ st.text }

abbrev parse : Str → Parsed
parse [] = record { text = []; user = []; items = []; messages = [] }
parse (t ∷ ts) = step t (parse ts)

abbrev closes : ℕ → Bool
closes zero = false
closes (suc zero) = false
closes (suc (suc zero)) = false
closes (suc (suc (suc zero))) = true
closes (suc (suc (suc (suc b)))) = false

abbrev is_closed : Str → Bool
is_closed [] = true
is_closed (b ∷ []) = closes b
is_closed (b ∷ c ∷ s) = is_closed (c ∷ s)

abbrev encoded : List Item → Str
encoded d = 0 ∷ encode_items d (3 ∷ [])

abbrev pub coding : Gob
coding = record {
  Encoder = Unit {0};
  new_encoder = tt;
  encode = λ enc d. ((encoded d, none), tt);
  decode = λ s.
      ((parse s).messages, if is_closed s then none else some (message (str "unexpected EOF")));
}

encode_items-append :
    (vs : List Item) (u t : Str) → encode_items vs u ++ t ≡ encode_items vs (u ++ t)
encode_items-append vs u t = append_items vs
  where
    append_text : (s u : Str) → shifted s u ++ t ≡ shifted s (u ++ t)
    append_text [] u = refl
    append_text (b ∷ s) u = ap (λ r. suc (suc (suc (suc b))) ∷ r) (append_text s u)

    append_items : (ws : List Item) → encode_items ws u ++ t ≡ encode_items ws (u ++ t)
    append_items [] = refl
    append_items (w ∷ ws) =
        ap (λ r. 1 ∷ r)
          (append_text w.id (2 ∷ shifted w.user_id (encode_items ws u))
            ∙ ap (λ r. shifted w.id (2 ∷ r))
                (append_text w.user_id (encode_items ws u)
                  ∙ ap (shifted w.user_id) (append_items ws)))

parse-shifted : (s t : Str) → parse (shifted s t) ≡ record (parse t) { text = s ++ (parse t).text }
parse-shifted [] t = refl
parse-shifted (b ∷ s) t = ap (λ (st : Parsed). record st { text = b ∷ st.text }) (parse-shifted s t)

parse-encode_items :
    (vs : List Item) (t : Str)
    → (parse t).text ≡ []
    → ((parse (encode_items vs t)).text ≡ [])
      × ((parse (encode_items vs t)).items ≡ vs ++ (parse t).items)
      × ((parse (encode_items vs t)).messages ≡ (parse t).messages)
parse-encode_items [] t e = (e, refl, refl)
parse-encode_items (v ∷ vs) t e =
    let (text, items, messages) = parse-encode_items vs t e in
    let rest = encode_items vs t in
    let user = parse-shifted v.user_id rest in
    let id = parse-shifted v.id (2 ∷ shifted v.user_id rest) in
    rw (id, user)
      (refl, rw (text, append-nil v.id, append-nil v.user_id) (ap (λ r. v ∷ r) items), messages)

parse-stream :
    (ds : List (List Item))
    → ((parse (stream coding tt ds)).items ≡ []) × ((parse (stream coding tt ds)).messages ≡ ds)
unfolding stream
parse-stream [] = (refl, refl)
parse-stream (d ∷ ds) =
    let (items, messages) = parse-stream ds in
    let (text', items', messages') = parse-encode_items d (3 ∷ stream coding tt ds) refl in
    rw (encode_items-append d (3 ∷ []) (stream coding tt ds))
      (refl, rw (items', messages', items, messages) (ap (λ r. r ∷ ds) (append-nil d)))

-- The end of a text is that of its last part.
is_closed-append : (s : Str) (b : ℕ) (t : Str) → is_closed (s ++ b ∷ t) ≡ is_closed (b ∷ t)
is_closed-append [] b t = refl
is_closed-append (c ∷ []) b t = refl
is_closed-append (c ∷ c' ∷ s) b t = is_closed-append (c' ∷ s) b t

encoded-append : (d : List Item) → encoded d ≡ (0 ∷ encode_items d []) ++ 3 ∷ []
encoded-append d = ap (λ r. 0 ∷ r) (sym (encode_items-append d [] (3 ∷ [])))

is_closed-stream : (ds : List (List Item)) → is_closed (stream coding tt ds) ≡ true
unfolding stream
is_closed-stream [] = refl
is_closed-stream (d ∷ []) =
    rw (append-nil (encoded d), encoded-append d) (is_closed-append (0 ∷ encode_items d []) 3 [])
is_closed-stream (d ∷ c ∷ ds) =
    is_closed-append (encoded d) 0 (encode_items c (3 ∷ []) ++ stream coding tt ds)
    ∙ is_closed-stream (c ∷ ds)

pub coding-IsGob : IsGob coding
coding-IsGob = record {
  encodes = λ enc d. refl;
  some_byte = λ enc d. omega arith;
  decodes = λ ds full. rw (is_closed-stream ds) (ap (λ ms. (ms, none)) (parse-stream ds).1);
}

-- No byte of a message closes it but the last.
abbrev IsOpen : Str → Type 0
IsOpen = All (λ b. closes b ≡ false)

shifted-IsOpen : (s t : Str) → IsOpen t → IsOpen (shifted s t)
shifted-IsOpen [] t h = h
shifted-IsOpen (b ∷ s) t h = (refl, shifted-IsOpen s t h)

encode_items-IsOpen : (vs : List Item) → IsOpen (encode_items vs [])
encode_items-IsOpen [] = tt
encode_items-IsOpen (v ∷ vs) =
    (refl, shifted-IsOpen v.id _ (refl, shifted-IsOpen v.user_id _ (encode_items-IsOpen vs)))

is_closed-take :
    (s t : Str) (b n : ℕ)
    → closes b ≡ false
    → IsOpen s
    → n ≤ length s
    → is_closed (b ∷ take n (s ++ t)) ≡ false
is_closed-take s t b zero open_byte h short = open_byte
is_closed-take [] t b (suc n) open_byte h short = absurd (omega arith)
is_closed-take (c ∷ s) t b (suc n) open_byte h short = is_closed-take s t c n h.0 h.1 (omega arith)

pub coding-IsCutShort : IsCutShort coding
coding-IsCutShort = record { cut_short = λ ds d n some_part short. cut ds d n some_part short }
  where
    cut :
        (ds : List (List Item)) (d : List Item) (n : ℕ)
        → 0 < n
        → n < length (encoded d)
        → (ms : List (List Item)) × (e : Error) × (coding.decode
              (stream coding tt ds ++ take n (encoded d))
            ≡ (ms, some e))
    cut ds d zero some_part short = absurd (omega arith)
    cut ds d (suc n) some_part short =
        let body = encode_items d [] in
        let same : encode_items d (3 ∷ []) ≡ body ++ 3 ∷ [] =
          sym (encode_items-append d [] (3 ∷ [])) in
        let small : n ≤ length body = omega (arith, length-append body (3 ∷ []), ap length same) in
        let open_end : is_closed (stream coding tt ds ++ take (suc n) (encoded d)) ≡ false =
          is_closed-append (stream coding tt ds) 0 (take n (encode_items d (3 ∷ [])))
          ∙ rw same (is_closed-take body (3 ∷ []) 0 n refl (encode_items-IsOpen d) small) in
        let read = stream coding tt ds ++ take (suc n) (encoded d) in
        ((parse read).messages, message (str "unexpected EOF"), rw open_end refl)
