-- ===== src/Chat/Samples.antt =====
-- The theorems on the chat, at a server that says "hi" and a client that quits.
use small_project_for_life_w.Base.{
  negsuc, true, ◌+◌, ◌*◌, ◌≤◌, ◌≡◌, refl, ◌⊎◌, false, [], ◌∷◌, arith,
}
use small_project_for_life_w.Chat.{
  Bytes, fgets, c_str, to_lower, begins_as, has_byte, say_line, say, talking, listening, stopped,
  after_send, talk, show_message, listen, Chat, sent_part, talks, talks_part, hears, Step,
  by_server, by_client, Reach, here, next, connected, to_unsigned,
}
use small_project_for_life_w.Chat.Say.{Line, say-Line}
use small_project_for_life_w.Chat.Delivery.{Delivered, messages_arrive, chat_goes_on}
use small_project_for_life_w.Chat.Ending.{steps, chat_ends}

abbrev hi : Bytes
hi = 104 ∷ 105 ∷ []

-- "hi" and "Quit", each with its newline
abbrev server_types : Bytes
server_types = 104 ∷ 105 ∷ 10 ∷ []

abbrev client_types : Bytes
client_types = 81 ∷ 117 ∷ 105 ∷ 116 ∷ 10 ∷ []

abbrev waiting : Chat
waiting = record {
  server = record { input = []; said = hi ∷ []; shown = []; place = listening };
  client = record { input = client_types; said = []; shown = []; place = listening };
  to_client = hi;
  to_server = [];
}

abbrev answering : Chat
answering = record waiting {
  client = record { input = client_types; said = []; shown = hi ∷ []; place = talking };
  to_client = [];
}

first_step : Step true (connected server_types client_types) waiting
unfolding talk say fgets c_str say_line begins_as has_byte to_lower after_send to_unsigned
first_step = by_server hi (talks refl refl) refl refl

second_step : Step true waiting answering
unfolding listen show_message has_byte c_str to_unsigned
second_step = by_client [] (hears refl (λ e. cc) refl refl) refl refl

abbrev run : Reach true (connected server_types client_types) answering
run = next (next here first_step) second_step

server_text : has_byte 0 server_types ≡ false
unfolding has_byte
server_text = refl

client_text : has_byte 0 client_types ≡ false
unfolding has_byte
client_text = refl

messages_arrive_example : Delivered answering
messages_arrive_example = messages_arrive server_types client_types server_text client_text run

chat_goes_on_example :
    ((t : Chat) × Step true answering t)
    ⊎ ((answering.server.place ≡ stopped) × (answering.client.place ≡ stopped))
chat_goes_on_example = chat_goes_on server_types client_types server_text client_text run

chat_ends_example : steps run ≤ 3 * (3 + 5) + 5
chat_ends_example = chat_ends server_types client_types server_text client_text run

say-Line_example : Line client_types (say 6 client_types)
say-Line_example = say-Line 6 client_types client_text (omega arith)

-- Where `send` fails, both programs wait, and nothing is under way.
abbrev both_wait : Chat
both_wait = record waiting { to_client = [] }

send_fails : Step false (connected server_types client_types) both_wait
unfolding talk say fgets c_str say_line begins_as has_byte to_lower after_send to_unsigned sent_part
send_fails = by_server [] (talks_part (λ m. negsuc 0) refl refl refl refl) refl refl
