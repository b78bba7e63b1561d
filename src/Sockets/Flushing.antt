-- ===== src/Sockets/Flushing.antt =====
-- What `send` and the open handler of WebsocketClient.ts do while the socket is open.
use boar_pack.Base.{
  String, ◌≡◌, sym, ap, ◌∙◌, true, List, [], ◌∷◌, ◌++◌, append-nil, append_assoc, number_eq,
  text_eq, if◌then◌else◌,
}
use boar_pack.Sockets.Browser.{
  World, current_open, send_payload, send, send_each, flush_pending_payloads, greet, on_open,
}

-- While the socket is open, every payload goes out.
unfoldable pub sent : List String → World → World
sent ps w = record w { wire = w.wire ++ ps }

unfoldable pub said : List String → World → World
said ps w = record w { wire = w.wire ++ ps; given = w.given ++ ps }

pub send_payload-open :
    (p : String) (w : World) → current_open w ≡ true → send_payload p w ≡ sent (p ∷ []) w
unfolding send_payload sent
send_payload-open p w h = ap (λ b. record w { wire = if b then w.wire ++ p ∷ [] else w.wire }) h

pub send_each-open :
    (ps : List String) (w : World) → current_open w ≡ true → send_each ps w ≡ sent ps w
unfolding send_each sent
send_each-open [] w h = ap (λ out. record w { wire = out }) (sym (append-nil w.wire))
send_each-open (p ∷ ps) w h =
    ap (send_each ps) (send_payload-open p w h)
    ∙ send_each-open ps (sent (p ∷ []) w) h
    ∙ ap (λ out. record w { wire = out }) (append_assoc w.wire (p ∷ []) ps)

pub send-open : (p : String) (w : World) → current_open w ≡ true → send p w ≡ said (p ∷ []) w
unfolding send said sent
send-open p w h = rw h (send_payload-open p (record w { given = w.given ++ p ∷ [] }) h)

pub greet-open : (ps : List String) (w : World) → current_open w ≡ true → greet ps w ≡ said ps w
unfolding greet said
greet-open [] w h =
    ap (λ out. record w { wire = out }) (sym (append-nil w.wire))
    ∙ ap (λ all. record w { wire = w.wire ++ []; given = all }) (sym (append-nil w.given))
greet-open (p ∷ ps) w h =
    ap (greet ps) (send-open p w h)
    ∙ greet-open ps (said (p ∷ []) w) h
    ∙ ap (λ out. record w { wire = out; given = (w.given ++ p ∷ []) ++ ps })
        (append_assoc w.wire (p ∷ []) ps)
    ∙ ap (λ all. record w { wire = w.wire ++ p ∷ ps; given = all })
        (append_assoc w.given (p ∷ []) ps)

pub on_open-open :
    (greeting : List String) (w : World)
    → current_open w ≡ true
    → on_open greeting w
      ≡ sent w.pending_payloads (record (said greeting w) { pending_payloads = [] })
unfolding on_open flush_pending_payloads said
on_open-open greeting w h =
    ap flush_pending_payloads (greet-open greeting w h)
    ∙ send_each-open w.pending_payloads (record (said greeting w) { pending_payloads = [] }) h
