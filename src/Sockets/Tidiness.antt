-- ===== src/Sockets/Tidiness.antt =====
-- What each call and event keeps in packages/common-frontend/src/tools/WebsocketClient.ts.
use boar_pack.Base.{
  ℕ, String, ◌+◌, ◌≡◌, refl, ap, ◌∙◌, Bool, true, false, not, ◌&&◌, Option, none, some, List, [],
  ◌∷◌, ◌++◌, number_eq, text_eq, member, if◌then◌else◌, ◌==◌, is_some, arith, Bool-cases, inl, inr,
  ==_refl,
}
use boar_pack.Dict.{set, get-set}
use boar_pack.Sockets.Browser.{
  Ready, connecting, opened, closing, World, is_open, open_in, current_open, connect, ready_closing,
  close_socket, send, on_open, unlisten, on_close, Message, invalid_json, error, other, status,
  on_message, Event, connects, step,
}
use boar_pack.Sockets.Flushing.{sent, said, send-open, on_open-open}

abbrev pub count : String → List String → ℕ
count p [] = 0
count p (q ∷ qs) = (if q == p then 1 else 0) + count p qs

pub count-append : (p : String) (xs ys : List String) → count p (xs ++ ys) ≡ count p xs + count p ys
count-append p [] ys = omega arith
count-append p (x ∷ xs) ys = omega (arith, count-append p xs ys)

abbrev pub to_list : Option ℕ → List ℕ
to_list none = []
to_list (some s) = s ∷ []

-- The client listens on its socket only, keeps no payload while that is open, and what went out and
-- what waits are together what it was given.
pub record Tidy (w : World) : Type 0 where
  pub listens : w.listening ≡ to_list w.socket
  pub flushed : (if current_open w then w.pending_payloads else []) ≡ []
  pub balanced : (p : String) → count p w.wire + count p w.pending_payloads ≡ count p w.given

-- No socket is made while there is one.
abbrev pub permitted : Event → World → Bool
permitted connects w = not (is_some w.socket)
permitted _ w = true

abbrev pub IsSerial : List Event → World → Type 0
IsSerial [] w = Unit
IsSerial (e ∷ es) w = (permitted e w ≡ true) × IsSerial es (step e w)

pub connect-Tidy : (w : World) → w.socket ≡ none → Tidy w → Tidy (connect w)
unfolding connect
connect-Tidy w h t = record {
  listens = ap (λ ls. w.created ∷ ls) (t.listens ∙ ap to_list h);
  flushed = rw (get-set w.created w.created connecting w.ready, ==_refl w.created) refl;
  balanced = t.balanced;
}

pub still_empty :
    (now before : Bool) (ps : List String)
    → (now ≡ true → before ≡ true)
    → (if before then ps else []) ≡ []
    → (if now then ps else []) ≡ []
still_empty false before ps f h = refl
still_empty true before ps f h = rw (f refl) at h

-- A socket that the client does not listen on opens, or one gets another ready state: the client's
-- socket is open only if it was.
pub open_before :
    (o : Option ℕ) (s : ℕ) (r : Ready) (ready : List (ℕ × Ready))
    → (member s (to_list o) && is_open (some r)) ≡ false
    → open_in o (set s r ready) ≡ true
    → open_in o ready ≡ true
open_before none s r ready h k = k
open_before (some t) s r ready h k = ground (arith, h, k, get-set s t r ready)

pub settle-Tidy :
    (s : ℕ) (r : Ready) (w : World)
    → (member s w.listening && is_open (some r)) ≡ false
    → Tidy w
    → Tidy (record w { ready = set s r w.ready })
settle-Tidy s r w h t = record {
  listens = t.listens;
  flushed =
      still_empty (open_in w.socket (set s r w.ready)) (current_open w) w.pending_payloads
        (open_before w.socket s r w.ready (rw t.listens at h)) t.flushed;
  balanced = t.balanced;
}

pub closing-open :
    (o : Option ℕ) (ready : List (ℕ × Ready))
    → open_in o (ready_closing o ready) ≡ true
    → open_in o ready ≡ true
closing-open none ready h = h
closing-open (some s) ready h = ground (arith, h, get-set s s closing ready)

pub close_socket-Tidy : (w : World) → Tidy w → Tidy (close_socket w)
unfolding close_socket
close_socket-Tidy w t = record {
  listens = t.listens;
  flushed =
      still_empty (open_in w.socket (ready_closing w.socket w.ready)) (current_open w)
        w.pending_payloads (closing-open w.socket w.ready) t.flushed;
  balanced = t.balanced;
}

pub send-Tidy : (p : String) (w : World) → Tidy w → Tidy (send p w)
unfolding send said sent
send-Tidy p w t = elim (Bool-cases (current_open w)) [
  | inl h ↦ rw (send-open p w h) (record {
    listens = t.listens;
    flushed = t.flushed;
    balanced = λ q.
        omega
          (arith, t.balanced q, count-append q w.wire (p ∷ []), count-append q w.given (p ∷ []));
  })
  | inr h ↦ rw h (record {
    listens = t.listens;
    flushed = rw h refl;
    balanced = λ q. omega (
      arith,
      t.balanced q,
      count-append q w.pending_payloads (p ∷ []),
      count-append q w.given (p ∷ []),
    );
  })
]

pub opened-Tidy :
    (greeting : List String) (w : World)
    → current_open w ≡ true
    → w.listening ≡ to_list w.socket
    → ((p : String) → count p w.wire + count p w.pending_payloads ≡ count p w.given)
    → Tidy (on_open greeting w)
unfolding said sent
opened-Tidy greeting w h listens balanced = rw (on_open-open greeting w h) (record {
  listens = listens;
  flushed = rw h refl;
  balanced = λ q. omega (
    arith,
    balanced q,
    count-append q (w.wire ++ greeting) w.pending_payloads,
    count-append q w.wire greeting,
    count-append q w.given greeting,
  );
})

pub unlisten-to_list : (o : Option ℕ) → unlisten o (to_list o) ≡ []
unlisten-to_list none = refl
unlisten-to_list (some s) = rw (==_refl s) refl

pub on_close-Tidy : (w : World) → Tidy w → Tidy (on_close w)
unfolding on_close
on_close-Tidy w t = record {
  listens = ap (unlisten w.socket) t.listens ∙ unlisten-to_list w.socket;
  flushed = refl;
  balanced = t.balanced;
}

pub on_message-Tidy : (m : Message) (w : World) → Tidy w → Tidy (on_message m w)
unfolding on_message
on_message-Tidy invalid_json w t = close_socket-Tidy w t
on_message-Tidy error w t = close_socket-Tidy w t
on_message-Tidy other w t = t
on_message-Tidy (status none) w t = t
on_message-Tidy (status (some r)) w t = record {
  listens = t.listens;
  flushed = t.flushed;
  balanced = t.balanced;
}

pub opens_own :
    (o : Option ℕ) (s : ℕ) (ready : List (ℕ × Ready))
    → member s (to_list o) ≡ true
    → open_in o (set s opened ready) ≡ true
opens_own none s ready h = h
opens_own (some t) s ready h = ground (arith, h, get-set s t opened ready)
