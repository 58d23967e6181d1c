-- ===== src/System.antt =====
-- The embedded server as a whole, from the constructor of the handler on (main.cpp,
-- ConHandler.cpp, Server.cpp): connections, walks of the clock, requests to exit and rounds of the
-- message queue, one after another in any order. A step is one call that comes to its end.
pub mod Walks
pub mod Starting
pub mod Safety
use tin_serwer.Base.{ℕ, ◌≡◌, Bool, List, ok}
use tin_serwer.Bytes.{Garbage}
use tin_serwer.Keys.{Pubkey}
use tin_serwer.Link.{Link}
use tin_serwer.Server.{Server}
use tin_serwer.Server.Receiving.{Round, mq_receive_loop}
use tin_serwer.Client.Sessions.{Crypto}
use tin_serwer.ConHandler.{ConHandler, clock_walk, request_exit, handle}
use tin_serwer.ConHandler.Entering.{HasRoomFor}

-- What can happen to the handler: `ConHandler::handle` of a connection, `ConHandler::clockWalk`,
-- `ConHandler::setExit`, and a call of `Server::mqReceiveLoop`. A connection is one that the table
-- has room for.
pub data Step (h : ConHandler) : ConHandler → Type 0 where
  connects :
      (crypto : Crypto) (keys : ℕ → Pubkey) (addr : ℕ) (link link' : Link) {h' : ConHandler}
      → HasRoomFor link h
      → handle crypto keys addr link h ≡ ok (link', h')
      → Step h h'
  walks : (g : Garbage) {h' : ConHandler} → clock_walk g h ≡ ok h' → Step h h'
  exits : Step h (request_exit h)
  answers :
      (time_size : ℕ) (g : Garbage) (rounds : List Round) (working : Bool) {s' : Server}
      → mq_receive_loop time_size g rounds h.server ≡ ok (working, s')
      → Step h (record h { server = s' })

-- What comes after `start`, by any number of steps.
pub data Reaches (start : ConHandler) : ConHandler → Type 0 where
  begins : Reaches start start
  goes_on : {h h' : ConHandler} → Reaches start h → Step h h' → Reaches start h'
