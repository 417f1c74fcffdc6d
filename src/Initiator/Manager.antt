-- ===== src/Initiator/Manager.antt =====
-- client/initiator/src/SessionManager.cpp: the sessions in their order; the locks are left out.
use fix4_2_protocol.Base.{
  ℕ, Str, str_eq, Bool, false, Option, none, some, List, [], ◌∷◌, ◌++◌, ◌==◌, if◌then◌else◌,
}
use fix4_2_protocol.OrderBook.{Outcome, returned, thrown, undefined}
use fix4_2_protocol.Initiator.Session.{Session, fresh_session, get_api_key}

unfoldable pub add_session : ℕ → ℕ → List Session → List Session
add_session id front ss = ss ++ fresh_session id front ∷ []

-- `findSession` of a front end, of a back end, and of a key.
unfoldable pub find_front : ℕ → List Session → Option Session
find_front socket [] = none
find_front socket (s ∷ ss) = if s.front_socket == socket then some s else find_front socket ss

abbrev same_socket : Option ℕ → ℕ → Bool
same_socket none n = false
same_socket (some m) n = m == n

unfoldable pub find_back : ℕ → List Session → Option Session
find_back socket [] = none
find_back socket (s ∷ ss) = if same_socket s.back_socket socket then some s else find_back socket ss

-- The test of one session may throw.
unfoldable pub found_key :
    Str → Outcome Str → Session → Outcome (Option Session) → Outcome (Option Session)
found_key k (returned k') s rest = if str_eq k' k then returned (some s) else rest
found_key k (thrown m) s rest = thrown m
found_key k undefined s rest = undefined

unfoldable pub find_key : Str → List Session → Outcome (Option Session)
unfolding get_api_key found_key
find_key k [] = returned none
find_key k (s ∷ ss) = found_key k (get_api_key s) s (find_key k ss)

-- The shared object of a session is replaced by its new state.
unfoldable pub store_session : Session → List Session → List Session
store_session t [] = []
store_session t (s ∷ ss) = if s.id == t.id then t ∷ ss else s ∷ store_session t ss

-- The task of `removeSession`: `erase` of the end of a vector is undefined.
unfoldable pub remove_session : ℕ → List Session → Outcome (List Session)
remove_session id [] = undefined
remove_session id (s ∷ ss) =
    let rest = remove_session id ss in
    if s.id == id then returned ss else elim rest [
      | returned ss' ↦ returned (s ∷ ss')
      | thrown m ↦ thrown m
      | undefined ↦ undefined
    ]
