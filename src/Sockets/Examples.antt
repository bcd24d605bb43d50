-- ===== src/Sockets/Examples.antt =====
-- The pages of mm/mem.c and the client of mm/nmsg.c on concrete deliveries.
use rshm_hmm.Base.{ℕ, ◌+◌, ◌≡◌, refl, arith, none, some, [], ◌∷◌, ◌++◌, true, false}
use rshm_hmm.Kernel.{Content, Memory}
use rshm_hmm.Sockets.{
  Pages, invalid, Delivery, Listener, Arrival, retrieve_pages, retrieve_loop, process_message,
  strcpy,
}
use rshm_hmm.Sockets.Retrieve.{AreDistinct, Ends, retrieve_pages-Synced}
use rshm_hmm.Sockets.Client.{Client, Answers, retrieve_page, ServerAddr}
use rshm_hmm.Sockets.Client.Page.{Fetched, retrieve_page-Failed}

abbrev two_pages : Pages
two_pages = record {
  pages = record { state = invalid; page = 3 } ∷ record { state = invalid; page = 4 } ∷ [];
  size = 2;
}

-- Two bytes stand behind the request in each round.
abbrev deliveries : ℕ → Delivery
deliveries i = record { failed = false; behind = i ∷ 7 ∷ []; page = i + 50 }

abbrev nothing : Memory
nothing p = 9 ∷ 9 ∷ 9 ∷ []

deliveries-AreDistinct : AreDistinct deliveries
deliveries-AreDistinct i j ne real = ground (arith, ne)

retrieve_pages-Synced_example :
    Ends deliveries 2 0 two_pages nothing (retrieve_pages true deliveries 2 two_pages nothing)
retrieve_pages-Synced_example =
    retrieve_pages-Synced deliveries true 2 two_pages nothing deliveries-AreDistinct (omega arith)

-- A third page has no slot.
third_page : retrieve_pages true deliveries 3 two_pages nothing ≡ none
unfolding retrieve_pages retrieve_loop
third_page = refl

-- A message is copied up to its end.
copied_message : (process_message (5 ∷ 0 ∷ 6 ∷ []) two_pages nothing).1 3 ≡ 5 ∷ 0 ∷ 9 ∷ []
unfolding process_message strcpy
copied_message = refl

abbrev unused : Client
unused = record {
  socks = 0;
  socks_given = 0;
  dest_addr = record { family = 0; port = 0; addr = 0 };
  sent = [];
}

abbrev reachable : Answers
reachable = record {
  create = 0;
  addr = 437915820;
  first = true;
  second = true;
  deliveries = deliveries;
}

-- Two pages are synced, and the result is -1.
retrieve_page-Failed_example :
    Fetched reachable 2 unused unused true two_pages nothing
      (retrieve_page reachable 2 unused two_pages nothing)
retrieve_page-Failed_example =
    retrieve_page-Failed reachable 2 unused two_pages nothing deliveries-AreDistinct (omega arith)

abbrev listener : Listener
listener = record {
  socks = 0;
  socks_given = 0;
  bufs = 0;
  bufs_given = 0;
  pages = two_pages;
  memory = nothing;
}

abbrev hello : Arrival
hello = record { stop_before = false; message = some (5 ∷ 0 ∷ []); stop_after = false }

abbrev told : Arrival
told = record { stop_before = true; message = none; stop_after = true }

-- A second, shorter address leaves the end of the first one: "10.0.0.12", then "10.0.0.3".
abbrev first_address : Content
first_address = 49 ∷ 48 ∷ 46 ∷ 48 ∷ 46 ∷ 48 ∷ 46 ∷ 49 ∷ 50 ∷ []

abbrev second_address : Content
second_address = 49 ∷ 48 ∷ 46 ∷ 48 ∷ 46 ∷ 48 ∷ 46 ∷ 51 ∷ []

abbrev first_server : ServerAddr
first_server = record { ip_address = first_address ++ 0 ∷ []; port_number = 1; thread = false }
