-- ===== src/Lib.antt =====
-- The SMS MNO gateway: a service that takes batches of messages from RabbitMQ, sends each message
-- through the sender of a mobile network operator, and publishes what became of it.
--
-- A delivery (internal/sms/adapters/rabbitmq/consumer.go, Rabbitmq/Consumer and Rabbitmq/Consuming)
-- goes to the processor (internal/sms/service/processor.go, Service/Processor), which answers each
-- message with a result (internal/sms/domain/result.go, Domain/Result). It asks the rate limiter for
-- tokens and, by the router (router.go, Service/Router), the factory
-- (internal/sms/adapters/mno/factory.go, Mno/Factory) for the sender: an SMPP gateway (base.go,
-- Mno/Smpp with Mno/Urls) or the SDP platform (safaricom_sdp.go, Mno/Sdp and Mno/SdpBatch). The
-- batch of results goes to the result handler (internal/sms/service/result_handler.go,
-- Service/ResultHandler), which dead-letters what has used up its retries, and the publisher
-- (internal/sms/adapters/rabbitmq/publisher.go, Rabbitmq/Publisher and Rabbitmq/Results) posts each
-- message to its queue. Only then is the delivery acknowledged (Service/Settled).
-- Rabbitmq/Declarations has the queues that the publisher declares at its start.
--
-- With priority routing, the message router (internal/sms/service/message_router.go,
-- Service/MessageRouter) gives the transactional messages of a delivery to the transactional handler
-- (transactional_handler.go, Service/Transactional) and the others to the priority scheduler
-- (priority_scheduler.go, Service/Scheduler), which admits a batch for a credit of its queue.
--
-- International messages have a processor of their own (africas_talking_processor.go,
-- Service/AfricasTalking), which sends a message once and retries only the steps behind the send,
-- and a sender (internal/sms/adapters/mno/africas_talking.go, Mno/AfricasTalking), which stops
-- sending for a time when the balance is used up. Their results are reported to the API
-- (internal/sms/adapters/httpapi/africas_talking_reporter.go, Reporter).
--
-- The rate limiter (internal/common/ratelimit/limiter.go, Common/RateLimit) keeps a budget for the
-- main queues and one for the retry queues of each network.
--
-- The configuration (internal/config/config.go, Config) is read from the environment; Mno/Wiring
-- makes the factory of it, with the circuit breakers of internal/common/circuitbreaker/breaker.go
-- (Common/Breakers). Weights of the queues and the values that change at run time stand in Redis
-- (internal/sms/adapters/redis/priority_store.go and dynamic_config.go, Redis/PriorityStore and
-- Redis/DynamicConfig), each behind a cache; token_cache.go beside them (Redis/TokenCache) keeps the
-- token of the SDP sender. internal/bootstrap/app.go connects the parts; of it, Bootstrap/Wiring and
-- Bootstrap/International have what it makes of the configuration, Bootstrap/Batching the workers
-- that gather the deliveries of a queue into batches for the processor, and Bootstrap/Migrator the
-- migrators, which take what the services have dead-lettered back to a queue.
--
-- Files. Base: names of the libraries, integers with Go's wrap-around, text, lists, maps, stateful
-- computations. Domain: internal/sms/domain (Network, Errors, Message, Result; Outcome and Batch
-- hold what the results promise). Ports: the interfaces of internal/sms/ports as records, with the
-- laws that their clients rely on. Rabbitmq, Mno, Common, Redis, Config, Service, Reporter,
-- Bootstrap: the components above. Tests: runs at concrete inputs.
--
-- Conventions. A function of the model has the name of the function of the source in lower case with
-- underscores, and the methods of a type take its record as an argument. Code that acts on the world
-- takes the world and returns it with its value; the type of the world is a parameter. `error`
-- values that may be nil are options. Text is a list of code points, times are in nanoseconds, int
-- is a signed 64-bit integer; where the code reads the clock twice in a row for a latency and a
-- timestamp, the model reads it once. Logs and metrics are left out. The goroutines of the worker
-- pools and of the scheduler are step relations in which a select takes any ready case.
--
-- Bounds. Cutting a group into chunks runs on as many rounds as there are messages, since a chunk
-- takes at least one. The loops of the scheduler and of getToken run on the number of rounds that
-- the source has. Other loops are structural.
--
-- Parameters. The AMQP client library is a record of its calls; that a successful publish appends to
-- the broker's log is a hypothesis. So is golang.org/x/time/rate, whose constructor makes a limiter
-- that was not there before and whose waits and questions touch their own limiter only. The HTTP
-- client, the circuit breaker library and JSON are parameters, the first two without a hypothesis;
-- of JSON it is assumed, on the way over the dead-letter queue, that an array of messages is read
-- back. The senders, the factory and the rate limiter are interfaces to the processor; that the
-- result of a sender is about its message is a hypothesis there, and Mno/Routes is about it for the
-- factory. The Redis client is a record of its calls; that they read the hash of their key, and
-- write it where they give no error, is a hypothesis; so is that a declared queue keeps its
-- arguments. Of the comparison of floating point numbers in the trip condition of the breakers, only
-- that a quotient reaches the ratio 0 is assumed. time.ParseDuration and the channel of a migrator
-- are parameters without one.
--
-- Not modelled: the rest of the wiring at start and shutdown, HTTP health checks, logging and
-- metrics, which only call libraries; the reconnection of the AMQP connection; the success rate of a
-- batch, which is a floating point number; and the mocks of the tests.
pub mod Base
pub mod Domain
pub mod Ports
pub mod Rabbitmq
pub mod Mno
pub mod Common
pub mod Redis
pub mod Reporter
pub mod Config
pub mod Service
pub mod Bootstrap
mod Tests
