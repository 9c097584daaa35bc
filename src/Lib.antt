-- ===== src/Lib.antt =====
-- Verification of llmbridge, a gateway that takes OpenAI-style HTTP requests, translates them to a
-- provider's dialect and relays the answer.
--
-- The parts. An engine (gateway/src) keeps client and upstream connections. Each connection
-- has an input buffer, which the HTTP parser of net/include/net/http.hpp frames, and an output
-- buffer (gateway/src/core/outbuf.hpp), which the event loop drains. Responses are framed by the
-- same header; chunked ones go through its decoder. provider/ reads and translates the JSON bodies.
--
-- Which file models which part.
--   Base        the names and lemmas that all share; Base/Bytes has the operations of string views,
--               Base/Search what a search finds in a text that grows.
--   Http        net/include/net/http.hpp: Http/Text (lc, same_ci, contains_ci, ltrim, trim_ows,
--               parse_strict_length, has_token), Http/Fields (Field, hop_by_hop, classify),
--               Http/Lines (line_end, line_ok, walk_headers, find_header), Http/Request
--               (request_line_ok, parse_request), Http/Response (parse_response_head),
--               Http/Chunked (ChunkDecoder), Http/Framer (frame_response_body, parse_response,
--               ResponseFramer); Http/Write is net/include/net/http_write.hpp.
--   Gateway     Gateway/OutBuf is gateway/src/core/outbuf.hpp, Gateway/Registry is
--               gateway/src/core/registry.hpp, Gateway/Splice is MemberSplice of
--               gateway/src/request.hpp and gateway/src/splice.cpp.
--               Gateway/Pool is gateway/src/core/pool.{hpp,cpp}, with the store of connections
--               that its links run through.
--   Provider    Provider/BodyScan is the state of provider/include/provider/body_scan.hpp; of
--               provider/src/body_scan.cpp, BodyScan/Keys is value_done and key_done,
--               BodyScan/Bytewise the states of step that take one byte, BodyScan/Feed the state
--               Str, step and feed. Provider/JsonScan is provider/src/json_scan.hpp, with
--               key_value_at, each_key and picodollars in JsonScan/Scans.
--               Of provider/include/provider/json.hpp, Provider/Json/Escape is unescape_append and
--               append_escaped, Json/Tokens the parts of Parser that read strings, numbers and
--               names, Json/Keys keys_fresh and keys_unique, Json/Parse parse_value, skip_value and
--               parse, and in Parse/Grammar what text spells a value; Json/Lookup the lookups of
--               Value.
--               Provider/Sse is SseFrameReader of provider/include/provider/sse.hpp and
--               provider/src/sse.cpp; Sse/Bytewise is the same framing byte by byte.
--               Sse/Translate is AnthropicToOpenAiSse of the same files: its writers, and in
--               Translate/Dispatch its events, with finish_of of provider/src/registry.cpp, in
--               Translate/Feed feed and finish; the counts of a usage object (usage_of) are a
--               parameter. Translate/Grammar tells what a legal stream is.
--               Provider/Openai is Envelope and merge_stated of provider/include/provider/openai.hpp
--               and provider/src/openai.cpp.
--
-- How code and model correspond. A string view is the list of its bytes, as natural numbers below
-- 256; a position in a text is a number, or the list of the bytes from it on. An output parameter
-- is a value passed in and returned, beside the result. A callback is a function on the state that
-- it captures, which comes back also where it refuses. A function keeps its name in the source; the
-- body of a long one is cut into functions at its branches, named for what they decide.
--
-- Fuel. has_token and find_header shorten their text in each round and have its length as fuel, as
-- walk_headers has one more than the length of the head: that this is enough is part of
-- walk_headers-join, which reads any number of lines. The outer loop of ChunkDecoder::feed takes a
-- byte in each round and has one more than the length of the input, and feed-encode shows that it
-- runs to the end. The loop of BodyScan::feed takes at most two rounds for a
-- byte and has one more than twice their number. The loops of json_scan advance in each round and
-- have the length of the text. json::parse has one more than
-- twice the length of the text; its insertion sort stands for std::sort. SseFrameReader::next has
-- one more than the bytes that are left, as each round takes one or returns;
-- AnthropicToOpenAiSse::feed has one more than the bytes of its read, which feed-enough shows to be
-- enough. UpstreamPool::reap and for_each have one more than the connections that are pooled: the
-- loop of reap unlinks one in each round, and reap-Reaped shows that it runs to the end.
--
-- What is not modelled: system calls and event loops, TLS, logging, the wiping of memory and the
-- capacities of strings, exceptions of the allocator, and the parts of the program that the list of
-- files above does not name.
pub mod Base
pub mod Gateway
pub mod Http
pub mod Provider
