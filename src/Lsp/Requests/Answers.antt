-- ===== src/Lsp/Requests/Answers.antt =====
-- Which answers the requests of internal/lsp/session.go get.
use go_mcp_gateway.Common.{
  Has, ℕ, zero, suc, ◌≤◌, ◌≡◌, ◌≢◌, refl, sym, ap, ◌∙◌, subst, ◌⊎◌, inl, inr, arith, ◌==◌, ==_iff,
  Bool-cases, Option, none, some, List, [], ◌∷◌, All, All-map,
}
use go_mcp_gateway.Common.Int.{ℤ, pos, negsuc}
use go_mcp_gateway.Lsp.Framing.{JsonRpcResponse}
use go_mcp_gateway.Lsp.Requests.{
  Waiting, Client, find, remove, put, begin, place, fill, of_answer, end_with, route_to, route,
  Wake, answer, Returned, of_response, returned, finish,
}

-- What happens to a client.
pub data Event : Type 0 where
  began : Event
  read : JsonRpcResponse → Event
  woke : ℕ → Wake → Event

pub step : Event → Client → Client
step began c = (begin c).0
step (read m) c = (route m c).0
step (woke id wake) c = (finish id wake c).0

-- The events, the last one first.
pub run : List Event → Client
run [] = record { next_id = 0; pending = [] }
run (e ∷ es) = step e (run es)

-- The answer that waits for a request was read, and carries its id.
abbrev Fitting : List Event → ℕ → Option JsonRpcResponse → Type 0
Fitting es id none = Unit
Fitting es id (some m) = (m.id ≡ pos id) × Has (read m) es

record IsNumbered (es : List Event) (next : ℕ) (w : Waiting) : Type 0 where
  used : w.id ≤ next
  fitting : Fitting es w.id w.answer

record Sound (es : List Event) (c : Client) : Type 0 where
  numbered : All (IsNumbered es c.next_id) c.pending

Fitting-later :
    (e : Event) (es : List Event) (id : ℕ) (o : Option JsonRpcResponse)
    → Fitting es id o
    → Fitting (e ∷ es) id o
Fitting-later e es id none h = tt
Fitting-later e es id (some m) (k, (b, a, p)) = (k, (e ∷ b, a, ap (λ t. e ∷ t) p))

Sound-later : (e : Event) (es : List Event) (c : Client) → Sound es c → Sound (e ∷ es) c
Sound-later e es c i = record {
  numbered =
      All-map c.pending
        (λ w n. record { used = n.used; fitting = Fitting-later e es w.id w.answer n.fitting })
        i.numbered;
}

remove-All : (P : Waiting → Type 0) (id : ℕ) (xs : List Waiting) → All P xs → All P (remove id xs)
unfolding remove
remove-All P id [] h = tt
remove-All P id (x ∷ xs) h = elim (Bool-cases (x.id == id)) [
  | inl e ↦ rw (e, remove) (remove-All P id xs h.1)
  | inr e ↦ rw (e, remove) (h.0, remove-All P id xs h.1)
]

put-IsNumbered :
    (es : List Event) (next id : ℕ) (m : JsonRpcResponse) (xs : List Waiting)
    → m.id ≡ pos id
    → Has (read m) es
    → All (IsNumbered es next) xs
    → All (IsNumbered es next) (put id m xs)
unfolding put
put-IsNumbered es next id m [] e r h = tt
put-IsNumbered es next id m (x ∷ xs) e r h = elim (Bool-cases (x.id == id)) [
  | inl k ↦
      rw (k, put)
        (
          record { used = h.0.used; fitting = (e ∙ ap pos (sym ((==_iff x.id id).0 k)), r) },
          put-IsNumbered es next id m xs e r h.1,
        )
  | inr k ↦ rw (k, put) (h.0, put-IsNumbered es next id m xs e r h.1)
]

begin-Sound : (es : List Event) (c : Client) → Sound es c → Sound es (begin c).0
unfolding begin
begin-Sound es c i = record {
  numbered = (
    record { used = omega arith; fitting = tt },
    All-map c.pending (λ w n. record { used = omega (arith, n.used); fitting = n.fitting })
        i.numbered,
  );
}

module _ (es : List Event) (m : JsonRpcResponse) (was_read : Has (read m) es) where
  fill-Sound :
      (id : ℕ) (o : Option JsonRpcResponse) (c : Client)
      → m.id ≡ pos id
      → Sound es c
      → Sound es (fill id m o c).0
  fill-Sound id none c e i = record {
    numbered = put-IsNumbered es c.next_id id m c.pending e was_read i.numbered;
  }
  fill-Sound id (some a) c e i = i

  place-Sound :
      (id : ℕ) (o : Option Waiting) (c : Client)
      → m.id ≡ pos id
      → Sound es c
      → Sound es (place id m o c).0
  place-Sound id none c e i = i
  place-Sound id (some x) c e i = fill-Sound id x.answer c e i

  route_to-Sound : (z : ℤ) (c : Client) → m.id ≡ z → Sound es c → Sound es (route_to z m c).0
  route_to-Sound (negsuc n) c e i = i
  route_to-Sound (pos zero) c e i = i
  route_to-Sound (pos (suc n)) c e i = place-Sound (suc n) (find (suc n) c.pending) c e i

end_with-Sound :
    (es : List Event) (id : ℕ) (r : Option Returned) (c : Client)
    → Sound es c
    → Sound es (end_with id r c).0
end_with-Sound es id none c i = i
end_with-Sound es id (some r) c i = record {
  numbered = remove-All (IsNumbered es c.next_id) id c.pending i.numbered;
}

run-Sound : (es : List Event) → Sound es (run es)
unfolding run step route finish
run-Sound [] = record { numbered = tt }
run-Sound (began ∷ es) =
    begin-Sound (began ∷ es) (run es) (Sound-later began es (run es) (run-Sound es))
run-Sound (read m ∷ es) =
    route_to-Sound (read m ∷ es) m ([], es, refl) m.id (run es) refl
      (Sound-later (read m) es (run es) (run-Sound es))
run-Sound (woke id wake ∷ es) =
    end_with-Sound (woke id wake ∷ es) id (returned wake (find id (run es).pending)) (run es)
      (Sound-later (woke id wake) es (run es) (run-Sound es))

find-All :
    (P : Waiting → Type 0) (id : ℕ) (xs : List Waiting) (x : Waiting)
    → All P xs
    → find id xs ≡ some x
    → P x × (x.id ≡ id)
unfolding find
find-All P id [] x h e = absurd (cc e)
find-All P id (y ∷ xs) x h e = elim (Bool-cases (y.id == id)) [
  | inl k ↦
      let same : y ≡ x = cc (rw (k, find) at e) in
      (subst P same h.0, subst (λ w. w.id ≡ id) same ((==_iff y.id id).0 k))
  | inr k ↦ find-All P id xs x h.1 (rw (k, find) at e)
]

find-none : (id : ℕ) (xs : List Waiting) → All (λ w. w.id ≢ id) xs → find id xs ≡ none
unfolding find
find-none id [] h = refl
find-none id (x ∷ xs) h = elim (Bool-cases (x.id == id)) [
  | inl k ↦ absurd (h.0 ((==_iff x.id id).0 k))
  | inr k ↦ rw (k, find) (find-none id xs h.1)
]

find-remove : (id : ℕ) (xs : List Waiting) → find id (remove id xs) ≡ none
unfolding find remove
find-remove id [] = refl
find-remove id (x ∷ xs) = ground (arith, find-remove id xs)

-- What a request that looks for its answer gets.
abbrev pub Gets : List Event → ℕ → Client × Option Returned → Type 0
Gets es id (c, r) =
    (r ≡ none) × (c ≡ run es)
    ⊎ ((m : JsonRpcResponse) × (m.id ≡ pos id)
        × Has (read m) es
        × (r ≡ some (of_response m m.error))
        × (find id c.pending ≡ none))

of_answer-Gets :
    (es : List Event) (id : ℕ) (a : Option JsonRpcResponse)
    → Fitting es id a
    → Gets es id (end_with id (of_answer a) (run es))
of_answer-Gets es id none h = inl (refl, refl)
of_answer-Gets es id (some m) h = inr (m, h.0, h.1, refl, find-remove id (run es).pending)

returned-Gets :
    (es : List Event) (id : ℕ) (o : Option Waiting)
    → find id (run es).pending ≡ o
    → Gets es id (end_with id (returned answer o) (run es))
returned-Gets es id none e = inl (refl, refl)
returned-Gets es id (some x) e =
    let (n, same) =
      find-All (IsNumbered es (run es).next_id) id (run es).pending x (run-Sound es).numbered e in
    of_answer-Gets es id x.answer (subst (λ k. Fitting es k x.answer) same n.fitting)

-- After any requests, messages and time-outs, in any order: a new request has an id that no waiting
-- request has, and a request that is answered gets a message that was read and carries its own id,
-- and leaves no entry behind. If there is no such message yet, it goes on waiting.
pub answers_fit :
    (es : List Event) (id : ℕ)
    → (find (begin (run es)).1 (run es).pending ≡ none) × Gets es id (finish id answer (run es))
unfolding begin finish
answers_fit es id = (
  find-none (suc (run es).next_id) (run es).pending (
      All-map (run es).pending (λ w n e. absurd (omega (arith, n.used, e)))
        (run-Sound es).numbered),
  returned-Gets es id _ refl,
)
