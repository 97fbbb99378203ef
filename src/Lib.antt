-- ===== src/Lib.antt =====
-- LEOTP, an information-centric transport protocol for low-earth-orbit satellite networks.
--
-- A requester asks for byte ranges of a named stream with interests, a responder answers them with
-- data, and midnodes between them forward both, answer interests from a cache and repair losses hop
-- by hop. A session holds a transport control block, LeotpTransCB; the sessions of a process share one
-- cache, and a listener hands each datagram to the session of its quadruple of addresses.
--
-- The files and the code:
--   Codec      include/generality.h: _imin_, _imax_, _ibound_, _itimediff, the encoders and clocks
--   ByteMap    include/ByteMap.h: the map from byte arrays that the cache uses
--   Cache      cache.cpp, include/cache.h: Cache::insert, Cache::read and what they call; the table
--              of ranges of a block is in Cache/Ranges
--   Seg        include/leotp.h and leotp.cpp: LeotpSeg, encodeSeg, the decoding in input, judgeSegDst
--   Trans      include/leotp.h: the fields of LeotpTransCB as the record TransCb, its constructor
--   Trans/Interest  leotp.cpp: request, flushIntQueue
--   Trans/IntBuf    leotp.cpp: updateIntBuf
--   Trans/Holes     leotp.cpp: detectDataHole, insertDataHole, deleteDataHole, sendDataHeader
--   Trans/Send      leotp.cpp: sendData, notifyNewData
--   Trans/Receive   leotp.cpp: parseData
--   Trans/Deliver   leotp.cpp: moveToRcvQueue, recv, peekSize, getRwnd, getWaitSnd
--   Trans/Rtt       leotp.cpp: updateRTT, updateHopRTT
--   Trans/Output    leotp.cpp: output, getIntDev, flushData
--   Trans/Rate      leotp.cpp: getDataSendRate, allow_cwnd_increase, allow_cwnd_decrease
--   Trans/Congestion  leotp.cpp: updateCwnd
--   Trans/Answer    leotp.cpp: outputInt, parseInt
--   Trans/Retransmit  leotp.cpp: flushDataHoles, flushIntBuf
--   Trans/Timer     leotp.cpp: check, flush, update
--   Trans/Input     leotp.cpp: input
--   Trans/Kept      leotp.cpp: what its functions leave to the callbacks (definitions of properties)
--   Session    include/udp_leotp.h, udp_leotp.cpp: addresses, Quad, the fields of LeotpSess
--   Session/Socket      udp_leotp.cpp: createSocket
--   Session/Callbacks   udp_leotp.cpp: udpSend, fetchData, createTransCB
--   Session/Create      udp_leotp.cpp: the constructors of LeotpSess
--   Session/Operations  udp_leotp.cpp: inputUDP, request, recvData, insertData, TransUpdateLoop
--   Session/Listen      udp_leotp.cpp: udpRecvLoop
--   Session/Timed       udp_leotp.cpp: how a run of the timer of a session ends
--   Session/Run         the threads of a process as steps, in any order
--   Api        api.cpp: startRequester, startResponder, startMidnode, chdirProgramDir
--   App        app/appclient.cpp, app/appmid.cpp, app/appserver.cpp: request_func, the relay of a
--              midnode, provideData
--   Base       words of 32 bits, Boolean tests, lists
--   Examples   the theorems at concrete inputs
-- A function of the code is a function with its name in snake case. The state that a method changes
-- is its last argument and its result; what the code does not change stays as it is in the record.
-- The macros USE_CACHE and HBH_CC are defined, as in include/leotp.h.
--
-- Words and memory: an IUINT32 or int is the bit pattern, a number below 2^32, with its wrap-around
-- written out in add32 and sub32; slt compares patterns as signed numbers. A char * is the function
-- from offsets to bytes, a datagram the list of its bytes. Fields that createSeg leaves as malloc
-- gives them are 0. Every operation reads the clock once: the argument `now`.
--
-- Fuel: the loops of Cache::insert and Cache::read have a round for each block of 4096 bytes, so
-- dataEnd / 4096 + 2 is enough; put_range needs a pass for each slot of the table and one more;
-- flushIntQueue needs a round for each byte that is asked for at most; sendData a round for each MSS
-- bytes, parseInt one for each MSS bytes of the range. That so much is enough is part of the
-- theorems, under their bounds. For a range that ends above 2^32 - MSS the code's parseInt may go on
-- beyond these rounds, since segStart wraps, and for data that ends within a block of 2^32
-- Cache::insert may not end: the field `overrun`, which the code does not have, marks a state that
-- parseInt or provideData left in this way, and what follows on it is no run of the code. The loop
-- of input has a round for each byte of the datagram. All other loops are structural. The search for a port has a round for each port there is; request_func takes the number
-- of its rounds.
--
-- A session is a control block whose `user` is the record User: the session's own fields, and what all
-- sessions share, the cache, the datagrams sent and whether `abort` was called. A session in the map
-- keeps its part of it; before each of its steps the shared part of now is put in.
--
-- The timer's `update` gives an Outcome: a state, `exit` on a dead link, the step of flushDataHoles
-- that has no defined behaviour, or fuel used up.
--
-- The callbacks that the constructor is given are the record Callbacks, and float arithmetic is the
-- record FloatOps, both arguments of the definitions that use them.
--
-- Not modelled: the system calls behind sockets, whose results are parameters; the creation of threads,
-- which are steps in any order; the calls of system in startMidnode, signal handlers, the log
-- (include/log.h), and the command lines and printing of the programs in app/. A datagram comes with
-- its original destination; the code keeps the last one where recvmsg gives none. Where the code has
-- undefined behaviour, such as reading the first element of an empty list, the file of the function
-- says what the definition does instead.
mod Base
pub mod Codec
pub mod ByteMap
pub mod Cache
pub mod Seg
pub mod Trans
pub mod Session
pub mod Api
pub mod App
pub mod Examples
