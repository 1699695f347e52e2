-- ===== src/Chat/Websocket/Actions.antt =====
-- What `textMessageAction` of internal/chat/app/websocket_handler.go answers.
use streaming_video_service.Prelude.{
  ℕ, String, ◌≡◌, refl, sym, ◌∙◌, ap, Bool, true, false, ◌==◌, ◌||◌, Option, none, some, List, [],
  ◌∷◌, ◌++◌, if◌then◌else◌, arith, append-nil,
}
use streaming_video_service.Golang.{
  Error, Result, ok, err, Outcome, returned, panicked, returned_inj,
}
use streaming_video_service.Chat.Domain.{
  PrivateChatInvitation, MessageBucket, RoomUnreadInfo, ChatMessage,
}
use streaming_video_service.Chat.Frames.{
  WsRequest, WsResponse, answer, answer_id, answer_unread, answer_invite, answer_enter,
  error_response,
}
use streaming_video_service.Chat.MessageUseCase.{Stores as MessageStores}
use streaming_video_service.Chat.Websocket.{
  Env, Hub, ChatWebsocketHandler, send, executed, leave, act, reply, text_message_action,
}

-- The actions of the switch.
abbrev pub is_known : String → Bool
is_known a =
    a == "invite_private"
    || (a == "accept_invite"
        || (a == "create_room"
            || (a == "join_room"
                || (a == "exit_room"
                    || (a == "enter_room"
                        || (a == "leave_room"
                            || (a == "send_message"
                                || (a == "read_message"
                                    || (a == "get_unread" || a == "get_invite")))))))))

-- The frame that comes before the response, for an action that is not known.
abbrev pub notices : ℕ → String → List (ℕ × WsResponse)
notices conn a = if is_known a then [] else (conn, error_response "unknown message types ") ∷ []

-- A response names its request's action, and has no error when it is a success.
abbrev pub IsAnswer : WsRequest → WsResponse → Type 0
IsAnswer req resp = (resp.action ≡ req.action) × (resp.success ≡ true → resp.error ≡ "")

answer-IsAnswer : (req : WsRequest) (e : Option Error) → IsAnswer req (answer req e)
answer-IsAnswer req none = (refl, λ _. refl)
answer-IsAnswer req (some e) = (refl, λ h. absurd (cc))

answer_id-IsAnswer :
    (key : String) (req : WsRequest) (r : Result String) → IsAnswer req (answer_id key req r)
answer_id-IsAnswer key req (ok id) = (refl, λ _. refl)
answer_id-IsAnswer key req (err e) = (refl, λ h. absurd (cc))

answer_unread-IsAnswer :
    (req : WsRequest) (r : Result (List RoomUnreadInfo)) → IsAnswer req (answer_unread req r)
answer_unread-IsAnswer req (ok us) = (refl, λ _. refl)
answer_unread-IsAnswer req (err e) = (refl, λ h. absurd (cc))

answer_invite-IsAnswer :
    (req : WsRequest) (r : Result (List PrivateChatInvitation)) → IsAnswer req (answer_invite req r)
answer_invite-IsAnswer req (ok is) = (refl, λ h. absurd (cc))
answer_invite-IsAnswer req (err e) = (refl, λ h. absurd (cc))

answer_enter-IsAnswer :
    (req : WsRequest) (r : Result (Option MessageBucket)) (before : Result (List ChatMessage))
    → IsAnswer req (answer_enter req r before)
answer_enter-IsAnswer req (ok (some b)) before = (refl, λ _. refl)
answer_enter-IsAnswer req (ok none) (ok ms) = (refl, λ _. refl)
answer_enter-IsAnswer req (ok none) (err e) = (refl, λ h. absurd (cc))
answer_enter-IsAnswer req (err e) (ok ms) = (refl, λ h. absurd (cc))
answer_enter-IsAnswer req (err e) (err e') = (refl, λ h. absurd (cc))

-- A test whose two cases have a property.
pub if-holds :
    {A : Type 0} (P : A → Type 0) (b : Bool) (x y : A)
    → (b ≡ true → P x)
    → (b ≡ false → P y)
    → P (if b then x else y)
if-holds P true x y yes_ no_ = yes_ refl
if-holds P false x y yes_ no_ = no_ refl

module _ {R I M P : Type 0} (conn : ℕ) (req : WsRequest) (hub : Hub R I M P) where
  -- What the switch gives, if it does not panic.
  abbrev IsFramed : Outcome (WsResponse × Hub R I M P) → Type 0
  IsFramed panicked = Unit
  IsFramed (returned (resp, hub')) =
      IsAnswer req resp × (hub'.frames ≡ hub.frames ++ notices conn req.action)

  quiet : is_known req.action ≡ true → hub.frames ≡ hub.frames ++ notices conn req.action
  quiet known = ground (arith, known, append-nil hub.frames)

  executed-IsFramed :
      (o : Outcome (Result String × MessageStores R M P))
      → is_known req.action ≡ true
      → IsFramed (executed req o hub)
  executed-IsFramed panicked known = tt
  executed-IsFramed (returned (r, s)) known = (answer_id-IsAnswer "message_id" req r, quiet known)

  leave-IsFramed : (n : Option ℕ) → is_known req.action ≡ true → IsFramed (leave req n hub)
  leave-IsFramed none known = tt
  leave-IsFramed (some n) known = ((refl, λ _. refl), quiet known)

  loud :
      is_known req.action ≡ false
      → hub.frames ++ (conn, error_response "unknown message types ") ∷ []
        ≡ hub.frames ++ notices conn req.action
  loud unknown = ground (arith, unknown)

module _ {R I M P : Type 0} (h : ChatWebsocketHandler R I M P) (conn : ℕ) (member : String)
    (req : WsRequest) (env : Env) (hub : Hub R I M P) where
  act-IsFramed : IsFramed conn req hub (act h conn member req env hub)
  unfolding act
  act-IsFramed =
      if-holds (IsFramed conn req hub) (req.action == "invite_private") _ _
        (λ is. (answer_id-IsAnswer _ req _, quiet conn req hub (ground (arith, is))))
        (λ a.
          if-holds (IsFramed conn req hub) (req.action == "accept_invite") _ _
            (λ is. (answer_id-IsAnswer _ req _, quiet conn req hub (ground (arith, is))))
            (λ b.
              if-holds (IsFramed conn req hub) (req.action == "create_room") _ _
                (λ is. (answer_id-IsAnswer _ req _, quiet conn req hub (ground (arith, is))))
                (λ c.
                  if-holds (IsFramed conn req hub) (req.action == "join_room") _ _
                    (λ is. (answer-IsAnswer req _, quiet conn req hub (ground (arith, is))))
                    (λ d.
                      if-holds (IsFramed conn req hub) (req.action == "exit_room") _ _
                        (λ is. (answer-IsAnswer req _, quiet conn req hub (ground (arith, is))))
                        (λ e.
                          if-holds (IsFramed conn req hub) (req.action == "enter_room") _ _
                            (λ is. (
                              answer_enter-IsAnswer req _ _,
                              quiet conn req hub (ground (arith, is)),
                            ))
                            (λ f.
                              if-holds (IsFramed conn req hub) (req.action == "leave_room") _ _
                                (λ is.
                                  leave-IsFramed conn req hub hub.room_ctx (ground (arith, is)))
                                (λ g.
                                  if-holds (IsFramed conn req hub) (req.action == "send_message") _
                                    _ (λ is. executed-IsFramed conn req hub _ (ground (arith, is)))
                                    (λ j.
                                      if-holds (IsFramed conn req hub)
                                        (req.action == "read_message") _ _
                                        (λ is. (
                                          answer-IsAnswer req _,
                                          quiet conn req hub (ground (arith, is)),
                                        ))
                                        (λ k.
                                          if-holds (IsFramed conn req hub)
                                            (req.action == "get_unread") _ _
                                            (λ is. (
                                              answer_unread-IsAnswer req _,
                                              quiet conn req hub (ground (arith, is)),
                                            ))
                                            (λ l.
                                              if-holds (IsFramed conn req hub)
                                                (req.action == "get_invite") _ _
                                                (λ is. (
                                                  answer_invite-IsAnswer req _,
                                                  quiet conn req hub (ground (arith, is)),
                                                ))
                                                (λ m. (
                                                  (refl, λ w. absurd (cc)),
                                                  loud conn req hub (
                                                      ground
                                                        (arith, a, b, c, d, e, f, g, j, k, l, m)),
                                                ))))))))))))

  replied :
      (o : Outcome (WsResponse × Hub R I M P)) (hub' : Hub R I M P)
      → IsFramed conn req hub o
      → reply h conn o ≡ returned hub'
      → (resp : WsResponse) × IsAnswer req resp
        × (hub'.frames ≡ (hub.frames ++ notices conn req.action) ++ (conn, resp) ∷ [])
  unfolding reply
  replied panicked hub' framed e = absurd (cc)
  replied (returned (resp, left_in)) hub' (good, frames) e = (
    resp,
    good,
    ap (λ (t : Hub R I M P). t.frames) (sym (returned_inj (send conn resp left_in) hub' e))
        ∙ ap (λ (fs : List (ℕ × WsResponse)). fs ++ (conn, resp) ∷ []) frames,
  )

  -- A request that is read and does not panic is answered on its connection: the last frame is a
  -- response with the request's action, and with no error if it is a success. Nothing else is
  -- written for the eleven known actions, and one error frame before it for any other.
  pub text_message_action-IsAnswer :
      (hub' : Hub R I M P)
      → text_message_action h conn member (ok req) env hub ≡ returned hub'
      → (resp : WsResponse) × IsAnswer req resp
        × (hub'.frames ≡ (hub.frames ++ notices conn req.action) ++ (conn, resp) ∷ [])
  unfolding text_message_action
  text_message_action-IsAnswer hub' e = replied (act h conn member req env hub) hub' act-IsFramed e
