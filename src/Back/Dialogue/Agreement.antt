-- ===== src/Back/Dialogue/Agreement.antt =====
-- While no message crosses another, the counters of client/back and the server agree, and every message passes the check.
use fix4_2_protocol.Base.{
  Str, str_eq_iff, true, none, [], ◌∷◌, ◌+◌, ◌<◌, ◌≡◌, refl, sym, subst, ◌∙◌, arith,
}
use fix4_2_protocol.Message.Types.{Header}
use fix4_2_protocol.Session.Client.{InternalClient, next_seq_number, expected_seq_number}
use fix4_2_protocol.Session.HeaderValidation.{verify_user_specific}
use fix4_2_protocol.Units.Output.{numbered, count_received, count_before, output_header}
use fix4_2_protocol.Back.{User, next_number, expected_number}
use fix4_2_protocol.Back.HeaderValidation.{back_verify_user}
use fix4_2_protocol.Back.Network.{back_output, back_count_received, back_count_before, back_header}
use fix4_2_protocol.Back.Dialogue.{
  Line, Content, is_none, client_speaks, server_speaks, up_accepted, down_accepted, accepted, Turn,
  client_sends, server_sends, server_receives, client_receives, Turns, none_taken, taken, IsShared,
}

module _ (provider : Str) where
  -- A message of the line stands in its place.
  pub data InStep (l : Line) : Type 0 where
    silent :
        l.up ≡ []
        → l.down ≡ []
        → l.server.seq_num ≡ l.user.seq_num
        → l.user.seq_num < 4294967296
        → InStep l
    going_up :
        (h : Header)
        → l.up ≡ h ∷ []
        → l.down ≡ []
        → h.msg_seq_num ≡ l.server.seq_num
        → l.user.seq_num ≡ l.server.seq_num + 1
        → l.user.seq_num < 4294967296
        → h.sender_comp_id ≡ l.user.user_id
        → h.target_comp_id ≡ provider
        → InStep l
    going_down :
        (h : Header)
        → l.up ≡ []
        → l.down ≡ h ∷ []
        → h.msg_seq_num ≡ l.user.seq_num
        → l.server.seq_num ≡ l.user.seq_num + 1
        → l.server.seq_num < 4294967296
        → h.target_comp_id ≡ l.server.user_id
        → h.sender_comp_id ≡ provider
        → InStep l

  abbrev pub Agrees : Line → Type 0
  Agrees l = IsShared l × InStep l

  -- What a turn makes of a line on which both sides are logged in.
  pub client_spoken :
      (l : Line) (x : Content)
      → l.user.logged_in ≡ true
      → l.user.seq_num < 4294967295
      → client_speaks provider x l ≡ record l {
        user = record l.user { seq_num = l.user.seq_num + 1 };
        up = back_header provider x.time x.msg_type x.size l.user ∷ [];
      }
  unfolding client_speaks back_output back_count_before next_number
  client_spoken l x e b = ground arith

  pub server_spoken :
      (l : Line) (x : Content)
      → l.server.logged_in ≡ true
      → l.server.seq_num < 4294967295
      → server_speaks provider x l ≡ record l {
        server = record l.server { seq_num = l.server.seq_num + 1 };
        down = output_header provider x.time x.msg_type x.size l.server ∷ [];
      }
  unfolding server_speaks numbered count_before next_seq_number
  server_spoken l x e b = ground arith

  pub server_counted :
      (c : InternalClient)
      → c.logged_in ≡ true
      → c.seq_num < 4294967295
      → count_received c ≡ record c { seq_num = c.seq_num + 1 }
  unfolding count_received next_seq_number
  server_counted c e b = ground arith

  pub client_counted :
      (u : User)
      → u.logged_in ≡ true
      → u.seq_num < 4294967295
      → back_count_received u ≡ record u { seq_num = u.seq_num + 1 }
  unfolding back_count_received next_number
  client_counted u e b = ground arith

  client_sends_Agrees :
      (l : Line) (x : Content)
      → Agrees l
      → l.up ≡ []
      → l.down ≡ []
      → l.user.seq_num < 4294967295
      → Agrees (client_speaks provider x l)
  unfolding back_header
  client_sends_Agrees l x (s, silent e f n k) p q b =
      subst Agrees (sym (client_spoken l x s.client_in b)) (
        record { server_in = s.server_in; client_in = s.client_in; one_user = s.one_user },
        going_up (back_header provider x.time x.msg_type x.size l.user) refl q (omega arith)
            (omega arith) (omega arith) refl refl,
      )
  client_sends_Agrees l x (s, going_up h e f n k b' v w) p q b = absurd (ground arith)
  client_sends_Agrees l x (s, going_down h e f n k b' v w) p q b = absurd (ground arith)

  server_sends_Agrees :
      (l : Line) (x : Content)
      → Agrees l
      → l.up ≡ []
      → l.down ≡ []
      → l.user.seq_num < 4294967295
      → Agrees (server_speaks provider x l)
  unfolding output_header
  server_sends_Agrees l x (s, silent e f n k) p q b =
      subst Agrees (sym (server_spoken l x s.server_in (omega arith))) (
        record { server_in = s.server_in; client_in = s.client_in; one_user = s.one_user },
        going_down (output_header provider x.time x.msg_type x.size l.server) p refl (omega arith)
            (omega arith) (omega arith) refl refl,
      )
  server_sends_Agrees l x (s, going_up h e f n k b' v w) p q b = absurd (ground arith)
  server_sends_Agrees l x (s, going_down h e f n k b' v w) p q b = absurd (ground arith)

  server_receives_Agrees :
      (l : Line) (h : Header)
      → Agrees l
      → l.up ≡ h ∷ []
      → Agrees (record l { server = count_received l.server; up = [] })
  server_receives_Agrees l h (s, silent e f n k) p = absurd (ground arith)
  server_receives_Agrees l h (s, going_up g e f n k b v w) p =
      rw (server_counted l.server s.server_in (omega arith)) (
        record { server_in = s.server_in; client_in = s.client_in; one_user = s.one_user },
        silent refl f (omega arith) b,
      )
  server_receives_Agrees l h (s, going_down g e f n k b v w) p = absurd (ground arith)

  client_receives_Agrees :
      (l : Line) (h : Header)
      → Agrees l
      → l.down ≡ h ∷ []
      → Agrees (record l { user = back_count_received l.user; down = [] })
  client_receives_Agrees l h (s, silent e f n k) p = absurd (ground arith)
  client_receives_Agrees l h (s, going_down g e f n k b v w) p =
      rw (client_counted l.user s.client_in (omega arith)) (
        record { server_in = s.server_in; client_in = s.client_in; one_user = s.one_user },
        silent e refl (omega arith) (omega arith),
      )
  client_receives_Agrees l h (s, going_up g e f n k b v w) p = absurd (ground arith)

  Turn-Agrees : {l m : Line} → Turn provider l m → Agrees l → Agrees m
  Turn-Agrees (client_sends l x p q b) a = client_sends_Agrees l x a p q b
  Turn-Agrees (server_sends l x p q b) a = server_sends_Agrees l x a p q b
  Turn-Agrees (server_receives l h p) a = server_receives_Agrees l h a p
  Turn-Agrees (client_receives l h p) a = client_receives_Agrees l h a p

  pub Turns-Agrees : {start l : Line} → Agrees start → Turns provider start l → Agrees l
  Turns-Agrees a none_taken = a
  Turns-Agrees a (taken r t) = Turn-Agrees t (Turns-Agrees a r)

  up_passes :
      (c : InternalClient) (h : Header)
      → c.logged_in ≡ true
      → c.seq_num < 4294967295
      → h.msg_seq_num ≡ c.seq_num
      → h.sender_comp_id ≡ c.user_id
      → h.target_comp_id ≡ provider
      → verify_user_specific provider h (count_received c) ≡ none
  unfolding verify_user_specific expected_seq_number
  up_passes c h e b n i t =
      rw (server_counted c e b) (
        ground (arith, str_eq_iff h.target_comp_id provider, str_eq_iff h.sender_comp_id c.user_id))

  down_passes :
      (u : User) (h : Header)
      → u.logged_in ≡ true
      → u.seq_num < 4294967295
      → h.msg_seq_num ≡ u.seq_num
      → h.target_comp_id ≡ u.user_id
      → h.sender_comp_id ≡ provider
      → back_verify_user provider h (back_count_received u) ≡ none
  unfolding back_verify_user expected_number
  down_passes u h e b n i t =
      rw (client_counted u e b) (
        ground (arith, str_eq_iff h.sender_comp_id provider, str_eq_iff h.target_comp_id u.user_id))

  pub Agrees-accepted : (l : Line) → Agrees l → accepted provider l ≡ true
  unfolding accepted up_accepted down_accepted is_none
  Agrees-accepted l (s, silent e f n k) = ground arith
  Agrees-accepted l (s, going_up g e f n k b v w) =
      ground (arith, up_passes l.server g s.server_in (omega arith) n (v ∙ sym s.one_user) w)
  Agrees-accepted l (s, going_down g e f n k b v w) =
      ground (arith, down_passes l.user g s.client_in (omega arith) n (v ∙ s.one_user) w)
